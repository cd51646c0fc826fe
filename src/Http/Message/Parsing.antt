-- ===== src/Http/Message/Parsing.antt =====
-- The parameters that a request parses on demand.
use sylar_leo.Base.{
  ◌≡◌, refl, ◌∙◌, ap, true, false, List, [], ◌∷◌, All, arith, inl, inr, Bool-cases,
}
use sylar_leo.Base.Text.{Text, codes}
use sylar_leo.Util.Url.{Without}
use sylar_leo.Http.Headers.{lookup}
use sylar_leo.Http.Headers.Order.{folded-Without}
use sylar_leo.Http.Params.{
  parse_params, print_params, parse_params-print_params, Printable, insert_all,
}
use sylar_leo.Http.Message.{
  HttpRequest, get_header, occurs, init_query_param, init_body_param, get_param, or_default,
}

query_parsed_again : (r : HttpRequest) → r.query_parsed ≡ true → init_query_param r ≡ r
unfolding init_query_param
query_parsed_again r h = rw h

body_parsed_again : (r : HttpRequest) → r.body_parsed ≡ true → init_body_param r ≡ r
unfolding init_body_param
body_parsed_again r h = rw (init_body_param, h)

query_parsed_once : (r : HttpRequest) → (init_query_param r).query_parsed ≡ true
unfolding init_query_param
query_parsed_once r = ground arith

body_parsed_once :
    (r : HttpRequest)
    → ((init_body_param r).body_parsed ≡ true) × ((init_body_param r).query_parsed ≡ r.query_parsed)
unfolding init_body_param
body_parsed_once r = ground arith

-- Parsing again changes nothing: whatever was asked for first, a second call of `getParam` leaves the
-- request as the first one did.
pub get_param_again :
    (key def key' def' : Text) (r : HttpRequest)
    → (get_param key' def' (get_param key def r).0).0 ≡ (get_param key def r).0
unfolding get_param
get_param_again key def key' def' r =
    let r1 = init_query_param r in
    let (done, kept) = body_parsed_once r1 in
    ap init_body_param (query_parsed_again (init_body_param r1) (kept ∙ query_parsed_once r))
    ∙ body_parsed_again (init_body_param r1) done

occurs_blank : (needle s : Text) → Without 32 s → occurs (32 ∷ needle) s ≡ false
occurs_blank needle [] h = refl
occurs_blank needle (c ∷ s) h = ground (arith, h.0, occurs_blank needle s h.1)

-- A request whose content type holds no space has no parameters from its body: the type that is looked
-- for begins with a space.
pub init_body_param_lem :
    (r : HttpRequest)
    → Without 32 (get_header (codes "content-type") [] r)
    → (init_body_param r).params ≡ r.params
unfolding init_body_param
init_body_param_lem r h = elim (Bool-cases r.body_parsed) [
  | inl done ↦ rw (init_body_param, done)
  | inr fresh ↦
      rw
        (
          init_body_param,
          fresh,
          occurs_blank (codes "application/x-www-form-urlencoded") _ (folded-Without _ h),
        )
        refl
]

-- The query of a request that was not parsed yet, printed from pairs without `=` in their keys, gives
-- `getParam` the pairs, where the body adds none.
pub get_param-print_params :
    (ps : List (Text × Text)) (key def : Text) (r : HttpRequest)
    → All Printable ps
    → r.query_parsed ≡ false
    → r.query ≡ print_params ps
    → Without 32 (get_header (codes "content-type") [] r)
    → (get_param key def r).1 ≡ or_default (lookup key (insert_all ps r.params)) def
unfolding get_param get_header
get_param-print_params ps key def r w fresh e h =
    let r1 : HttpRequest = record r {
      params = parse_params b'&' (λ s. s) r.query r.params;
      query_parsed = true;
    } in
    let first : init_query_param r ≡ r1 = unfold init_query_param in rw fresh in
    let parsed : r1.params ≡ insert_all ps r.params =
      rw e (parse_params-print_params ps r.params w) in
    rw first (ap (λ m. or_default (lookup key m) def) (init_body_param_lem r1 h ∙ parsed))
