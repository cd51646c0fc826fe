-- ===== src/Http/Params.antt =====
-- PARSE_PARAM of sylar/http/http.cpp: the parameters of a query, of a form and of the cookies.
use sylar_leo.Base.{
  ℕ, zero, suc, ◌+◌, ◌≤◌, ◌<◌, ◌≡◌, refl, true, Option, none, some, List, [], ◌∷◌, ◌++◌, All,
  length, length-append, arith, inl, inr, Bool-cases, Option-cases, ◌==◌, if◌then◌else◌,
}
use sylar_leo.Base.Text.{Text}
use sylar_leo.Util.{url_encode, url_decode}
use sylar_leo.Util.Url.{url_decode-url_encode, url_encode-Without, Without}
use sylar_leo.Http.Headers.{MapType, insert_value}
use mathlib.Core.Option

-- `str.find(c, pos)`: the text before the first `c` and the text behind it.
pub split_at : ℕ → Text → Option (Text × Text)
split_at c [] = none
split_at c (x ∷ s) =
    let rest = Option.map {B = Text × Text} (λ p. (x ∷ p.0, p.1)) (split_at c s) in
    if x == c then some ([], s) else rest

-- The loop, from the text at `pos` on; `none` means that the fuel ran out.
pub parse_param : ℕ → ℕ → (Text → Text) → Text → MapType → Option MapType
unfolding split_at
parse_param zero flag trim_key str m = none
parse_param (suc fuel) flag trim_key str m = elim (split_at b'=' str) [
  | none ↦ some m
  | some (key, rest) ↦ elim (split_at flag rest) [
    | none ↦ some (insert_value (trim_key key) (url_decode true rest) m)
    | some (val, next) ↦
        parse_param fuel flag trim_key next (insert_value (trim_key key) (url_decode true val) m)
  ]
]

-- Each round takes at least one byte of the text.
pub parse_params : ℕ → (Text → Text) → Text → MapType → MapType
unfolding parse_param
parse_params flag trim_key str m = elim (parse_param (length str + 1) flag trim_key str m) [
  | none ↦ m
  | some m' ↦ m'
]

split_at-length :
    (c : ℕ) (s : Text) {p : Text × Text}
    → split_at c s ≡ some p
    → length p.0 + length p.1 + 1 ≡ length s
unfolding split_at
split_at-length c [] e = cc
split_at-length c (x ∷ s) {p} e = elim (Bool-cases (x == c)) [
  | inl hit ↦ ground (arith, hit, e)
  | inr miss ↦ elim (Option-cases (split_at c s)) [
    | inl n ↦ absurd (ground (arith, miss, n, e))
    | inr (q, f) ↦ let ih = split_at-length c s f in ground (arith, miss, f, e, ih)
  ]
]

-- The loop ends, with the fuel that it is given, for every text.
pub parse_param_total :
    (fuel flag : ℕ) (trim_key : Text → Text) (str : Text) (m : MapType)
    → length str < fuel
    → (m' : MapType) × (parse_param fuel flag trim_key str m ≡ some m')
unfolding parse_param
parse_param_total zero flag trim_key str m h = absurd (omega arith)
parse_param_total (suc fuel) flag trim_key str m h = elim (Option-cases (split_at b'=' str)) [
  | inl n ↦ (m, rw (parse_param, n))
  | inr ((key, rest), e) ↦ elim (Option-cases (split_at flag rest)) [
    | inl n ↦ (insert_value (trim_key key) (url_decode true rest) m, rw (parse_param, e, n))
    | inr ((val, next), f) ↦
        let (m', r) =
          parse_param_total fuel flag trim_key next
            (insert_value (trim_key key) (url_decode true val) m)
            (omega (arith, split_at-length b'=' str e, split_at-length flag rest f)) in
        (m', rw (parse_param, e, f) r)
  ]
]

split_at_absent : (c : ℕ) (s : Text) → Without c s → split_at c s ≡ none
unfolding split_at
split_at_absent c [] h = refl
split_at_absent c (x ∷ s) h = ground (arith, h.0, split_at_absent c s h.1)

split_at_found :
    (c : ℕ) (s rest : Text) → Without c s → split_at c (s ++ (c ∷ rest)) ≡ some (s, rest)
unfolding split_at
split_at_found c [] rest h = ground arith
split_at_found c (x ∷ s) rest h = ground (arith, h.0, split_at_found c s rest h.1)

-- `k=v&k=v&…`, with the values encoded.
pub print_params : List (Text × Text) → Text
print_params [] = []
print_params ((k, v) ∷ []) = k ++ (b'=' ∷ url_encode true v)
print_params ((k, v) ∷ q ∷ ps) = k ++ (b'=' ∷ (url_encode true v ++ (b'&' ∷ print_params (q ∷ ps))))

pub insert_all : List (Text × Text) → MapType → MapType
insert_all [] m = m
insert_all ((k, v) ∷ ps) m = insert_all ps (insert_value k v m)

abbrev pub Printable : Text × Text → Type 0
Printable p = Without b'=' p.0 × All (λ c. c < 256) p.1

parse_printed :
    (fuel : ℕ) (ps : List (Text × Text)) (m : MapType)
    → length ps < fuel
    → All Printable ps
    → parse_param fuel b'&' (λ s. s) (print_params ps) m ≡ some (insert_all ps m)
unfolding parse_param print_params insert_all split_at
parse_printed zero ps m h w = absurd (omega arith)
parse_printed (suc fuel) [] m h w = refl
parse_printed (suc fuel) ((k, v) ∷ []) m h w = rw (
  parse_param,
  split_at_found b'=' k (url_encode true v) w.0.0,
  split_at_absent b'&' (url_encode true v) (url_encode-Without true v w.0.1),
  url_decode-url_encode true v w.0.1,
)
parse_printed (suc fuel) ((k, v) ∷ q ∷ ps) m h w =
    rw
      (
        parse_param,
        split_at_found b'=' k (url_encode true v ++ (b'&' ∷ print_params (q ∷ ps))) w.0.0,
        split_at_found b'&' (url_encode true v) (print_params (q ∷ ps))
            (url_encode-Without true v w.0.1),
        url_decode-url_encode true v w.0.1,
      )
      (parse_printed fuel (q ∷ ps) (insert_value k v m) (omega arith) w.1)

length-print_params : (ps : List (Text × Text)) → length ps ≤ length (print_params ps)
unfolding print_params
length-print_params [] = omega arith
length-print_params ((k, v) ∷ []) = omega (arith, length-append k (b'=' ∷ url_encode true v))
length-print_params ((k, v) ∷ q ∷ ps) = omega (
  arith,
  length-append k (b'=' ∷ (url_encode true v ++ (b'&' ∷ print_params (q ∷ ps)))),
  length-append (url_encode true v) (b'&' ∷ print_params (q ∷ ps)),
  length-print_params (q ∷ ps),
)

-- Pairs whose keys hold no `=`, printed as a query with encoded values, are parsed to the same pairs, in
-- their order; of two with the same key the first one counts.
pub parse_params-print_params :
    (ps : List (Text × Text)) (m : MapType)
    → All Printable ps
    → parse_params b'&' (λ s. s) (print_params ps) m ≡ insert_all ps m
unfolding parse_params
parse_params-print_params ps m w = rw (
  parse_params,
  parse_printed (length (print_params ps) + 1) ps m (omega (arith, length-print_params ps)) w,
)
