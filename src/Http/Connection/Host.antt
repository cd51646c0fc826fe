-- ===== src/Http/Connection/Host.antt =====
-- The headers of the requests that a client sends.
use sylar_leo.Base.{
  ◌≡◌, refl, ◌∙◌, Bool, true, false, not, none, some, List, [], ◌∷◌, arith, if◌then◌else◌,
  Bool-cases, inl, inr,
}
use sylar_leo.Base.Text.{Text, codes}
use sylar_leo.Http.Headers.{
  same_key, lookup, set_value, folded, c_str, text_less, case_insensitive_less,
}
use sylar_leo.Http.Headers.Order.{lookup-set_value}
use sylar_leo.Http.Message.{HttpRequest, set_header}
use sylar_leo.Http.Connection.{add_header, add_headers, fill_request}

-- What the loop over the headers keeps.
record Kept (r : HttpRequest × Bool) : Type 0 where
  host : r.1 ≡ true → (v : Text) × (lookup (codes "host") r.0.headers ≡ some v)
  connection : lookup (codes "connection") r.0.headers ≡ none

add_header-Kept : (h : Text × Text) (r : HttpRequest × Bool) → Kept r → Kept (add_header h r)
unfolding add_header set_header
add_header-Kept (key, val) (req, has_host) k =
    elim (Bool-cases (same_key key (codes "connection"))) [
      | inl skipped ↦ elim (Bool-cases (same_key val (codes "keep-alive"))) [
        | inl keep ↦ rw (skipped, keep) (record { host = k.host; connection = k.connection })
        | inr other ↦ rw (skipped, other) k
      ]
      | inr used ↦
          let no_connection : lookup (codes "connection") (set_value key val req.headers) ≡ none =
            lookup-set_value key val (codes "connection") req.headers ∙ rw used k.connection in
          elim (Bool-cases (same_key key (codes "host"))) [
            | inl is_host ↦ rw used (record {
              host =
                  λ h. (val, lookup-set_value key val (codes "host") req.headers ∙ rw is_host refl);
              connection = no_connection;
            })
            | inr other ↦
                rw (used, other)
                  (record {
                    host = λ h.
                        let (v, there) = k.host (still has_host h) in
                        (v, lookup-set_value key val (codes "host") req.headers ∙ rw other there);
                    connection = no_connection;
                  })
          ]
    ]
  where
    still : (b : Bool) → (if not b then b else b) ≡ true → b ≡ true
    still true h = refl
    still false h = h

add_headers-Kept :
    (headers : List (Text × Text)) (r : HttpRequest × Bool) → Kept r → Kept (add_headers headers r)
unfolding add_headers
add_headers-Kept [] r k = k
add_headers-Kept (h ∷ headers) r k =
    add_headers-Kept headers (add_header h r) (add_header-Kept h r k)

-- Whatever headers the caller gives, in whatever letters: a request that starts with no header is sent
-- with a Host header and without the caller's Connection header, and with the body given.
pub fill_request_lem :
    (host : Text) (headers : List (Text × Text)) (body : Text) (req : HttpRequest)
    → req.headers ≡ []
    → ((v : Text) × (lookup (codes "host") (fill_request host headers body req).headers ≡ some v))
      × (lookup (codes "connection") (fill_request host headers body req).headers ≡ none)
      × ((fill_request host headers body req).body ≡ body)
unfolding fill_request set_header same_key case_insensitive_less folded c_str text_less lookup
fill_request_lem host headers body req none_yet =
    let kept =
      add_headers-Kept headers (req, false)
        (record { host = λ h. absurd (ground (arith, h)); connection = rw none_yet refl }) in
    let filled = (add_headers headers (req, false)).0 in
    elim (Bool-cases (add_headers headers (req, false)).1) [
      | inl has ↦ rw has (kept.host has, kept.connection, refl)
      | inr has_none ↦ rw has_none (
        (host, lookup-set_value (codes "Host") host (codes "host") filled.headers),
        lookup-set_value (codes "Host") host (codes "connection") filled.headers ∙ kept.connection,
        refl,
      )
    ]
