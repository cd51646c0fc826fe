-- ===== src/Log/Pattern.antt =====
-- That the pattern of a LogFormatter is read to its end.
pub mod Printing
use sylar_leo.Base.{
  ℕ, zero, suc, ◌+◌, ◌≤◌, ◌≡◌, refl, sym, ap, subst, ◌∙◌, Bool, true, false, ◌&&◌, ◌||◌, not,
  Option, none, some, List, [], ◌∷◌, ◌++◌, append_assoc, append-nil, arith, ◌==◌, leb,
  if◌then◌else◌, length, length-append, Bool-cases, Option-cases, inl, inr,
}
use sylar_leo.Base.Text.{Text, codes}
use sylar_leo.Log.{
  Piece, plain, item, Turn, one_char, one_item, unclosed, is_alpha, scan_key, scan_fmt, scan_brace,
  scan, turn_item, turn_percent, turn, flush, Parsed, then_item, then_error, parse, parse_pattern,
}

length-scan_key : (s : Text) → length (scan_key s).1 ≤ length s
unfolding scan_key
length-scan_key [] = omega arith
length-scan_key (c ∷ s) = elim (Bool-cases (is_alpha c || c == b'}')) [
  | inl inside ↦ let h = length-scan_key s in rw inside (omega (arith, h))
  | inr outside ↦ rw outside (omega arith)
]

-- What a scan leaves is no longer than `n`.
data Fits {ℓ} {A : Type ℓ} (n : ℕ) : Option (A × Text) → Type ℓ where
  fails : Fits n none
  finds : {a : A} {rest : Text} → length rest ≤ n → Fits n (some (a, rest))

scan_fmt-Fits : (s : Text) → Fits (length s) (scan_fmt s)
unfolding scan_fmt
scan_fmt-Fits [] = fails
scan_fmt-Fits (c ∷ s) = elim (Bool-cases (c == b'}')) [
  | inl closing ↦ rw closing (finds (omega arith))
  | inr other ↦ rw other (longer (scan_fmt s) (scan_fmt-Fits s))
]
  where
    longer :
        (r : Option (Text × Text))
        → Fits (length s) r
        → Fits (suc (length s)) (elim r [ none ↦ none | some (fmt, rest) ↦ some (c ∷ fmt, rest) ])
    longer _ fails = fails
    longer _ (finds h) = finds (omega (arith, h))

scan_brace-Fits : (str s : Text) → Fits (length s) (scan_brace str s)
unfolding scan_brace
scan_brace-Fits str [] = finds (omega arith)
scan_brace-Fits str (c ∷ s) = elim (Bool-cases (c == b'{')) [
  | inl opening ↦ rw opening (inside (scan_fmt s) (scan_fmt-Fits s))
  | inr other ↦ rw other (finds (omega arith))
]
  where
    inside :
        (r : Option (Text × Text))
        → Fits (length s) r
        → Fits
            (suc (length s))
            (elim r [ none ↦ none | some (fmt, rest) ↦ some (item str fmt, rest) ])
    inside _ fails = fails
    inside _ (finds h) = finds (omega (arith, h))

-- What a turn leaves.
turn_rest : Turn → Text
turn_rest (one_char c rest) = rest
turn_rest (one_item p rest) = rest
turn_rest (unclosed rest) = rest

turn_item-length : (s : Text) → length (turn_rest (turn_item s)) ≤ length s
unfolding turn_item scan turn_rest
turn_item-length s =
    go (scan_brace (scan_key s).0 (scan_key s).1) (scan_brace-Fits (scan_key s).0 (scan_key s).1)
  where
    go :
        (r : Option (Piece × Text))
        → Fits (length (scan_key s).1) r
        → length (turn_rest (elim r [ none ↦ unclosed s | some (p, rest) ↦ one_item p rest ]))
          ≤ length s
    go _ fails = omega arith
    go _ (finds h) = let shorter = length-scan_key s in omega (arith, h, shorter)

turn-length : (c : ℕ) (s : Text) → length (turn_rest (turn c s)) ≤ length s
unfolding turn turn_percent turn_rest
turn-length c [] = elim (Bool-cases (c == b'%')) [
  | inl percent ↦ rw percent (turn_item-length [])
  | inr other ↦ rw other (omega arith)
]
turn-length c (d ∷ s) = elim (Bool-cases (c == b'%')) [
  | inl percent ↦ elim (Bool-cases (d == b'%')) [
    | inl again ↦ rw (percent, again) (omega arith)
    | inr other ↦ rw (percent, other) (turn_item-length (d ∷ s))
  ]
  | inr other ↦ rw other (omega arith)
]

abbrev pub Same : ℕ → ℕ → Text → Text → Type 0
Same f g nstr s =
    ((r : List Piece × Bool) × (parse f nstr s ≡ some r)) × (parse f nstr s ≡ parse g nstr s)

-- With as much fuel as text the loop ends, and more fuel changes nothing.
pub parse-enough : (f g : ℕ) (nstr s : Text) → length s ≤ f → length s ≤ g → Same f g nstr s
unfolding parse turn_rest
parse-enough f g nstr [] hf hg = (((flush nstr [], false), refl), refl)
parse-enough zero g nstr (c ∷ s) hf hg = absurd (omega arith)
parse-enough (suc f) zero nstr (c ∷ s) hf hg = absurd (omega arith)
parse-enough (suc f) (suc g) nstr (c ∷ s) hf hg =
    go (turn c s) (turn-length c s)
      (λ nstr' rest h. parse-enough f g nstr' rest (omega (arith, h, hf)) (omega (arith, h, hg)))
  where
    after : Turn → ℕ → Parsed
    after t n = elim t [
      | one_char d rest ↦ parse n (nstr ++ d ∷ []) rest
      | one_item p rest ↦ then_item nstr p (parse n [] rest)
      | unclosed rest ↦ then_error (parse n nstr rest)
    ]

    go :
        (t : Turn)
        → length (turn_rest t) ≤ length s
        → ((nstr' rest : Text) → length rest ≤ length s → Same f g nstr' rest)
        → ((r : List Piece × Bool) × (after t f ≡ some r)) × (after t f ≡ after t g)
    go (one_char d rest) h again = again (nstr ++ d ∷ []) rest h
    go (one_item p rest) h again =
        let ((r, done), same) = again [] rest h in
        (((flush nstr (p ∷ r.0), r.1), ap (then_item nstr p) done), ap (then_item nstr p) same)
    go (unclosed rest) h again =
        let ((r, done), same) = again nstr rest h in
        (((plain (codes "<<pattern_error>>") ∷ r.0, true), ap then_error done), ap then_error same)

-- Every pattern is read to its end: the loop of `LogFormatter::init` ends, on unclosed braces too, after
-- at most as many turns as the pattern has characters.
pub parse_pattern_total :
    (pattern_text : Text) → (r : List Piece × Bool) × (parse_pattern pattern_text ≡ some r)
unfolding parse_pattern
parse_pattern_total pattern_text =
    (parse-enough (length pattern_text) (length pattern_text) [] pattern_text (omega arith)
      (omega arith)).0
