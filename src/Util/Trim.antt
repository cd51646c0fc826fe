-- ===== src/Util/Trim.antt =====
-- What `Trim`, `TrimLeft` and `TrimRight` leave.
use sylar_leo.Base.{
  ℕ, ◌≡◌, refl, ap, ◌∙◌, true, false, [], ◌∷◌, ◌++◌, All, inl, inr, Bool-cases, if◌then◌else◌,
}
use sylar_leo.Base.Text.{Text}
use sylar_leo.Util.{trim, trim_left, trim_right, up_to_last, without_last, contains}

abbrev pub Delimiters : Text → Text → Type 0
Delimiters delimit s = All (λ c. contains delimit c ≡ true) s

-- The first and the last byte, where there is one, is no delimiter.
abbrev pub StartsClean : Text → Text → Type 0
StartsClean delimit [] = Unit {0}
StartsClean delimit (c ∷ s) = contains delimit c ≡ false

abbrev pub EndsClean : Text → Text → Type 0
EndsClean delimit [] = Unit {0}
EndsClean delimit (c ∷ []) = contains delimit c ≡ false
EndsClean delimit (c ∷ d ∷ s) = EndsClean delimit (d ∷ s)

trim_left_lem :
    (delimit s : Text)
    → (front : Text) × (s ≡ front ++ trim_left delimit s)
      × Delimiters delimit front
      × StartsClean delimit (trim_left delimit s)
unfolding trim_left
trim_left_lem delimit [] = ([], refl, tt, tt)
trim_left_lem delimit (c ∷ s) = elim (Bool-cases (contains delimit c)) [
  | inl on ↦
      let (front, e, d, clean) = trim_left_lem delimit s in
      rw on (c ∷ front, ap (λ t. c ∷ t) e, (on, d), clean)
  | inr off ↦ rw off ([], refl, tt, off)
]

pub up_to_last_lem :
    (delimit s : Text)
    → (back : Text) × (s ≡ up_to_last delimit s ++ back)
      × Delimiters delimit back
      × EndsClean delimit (up_to_last delimit s)
unfolding up_to_last
up_to_last_lem delimit [] = ([], refl, tt, tt)
up_to_last_lem delimit (c ∷ s) =
    let (back, e, d, clean) = up_to_last_lem delimit s in
    by_rest (up_to_last delimit s) back e d clean
  where
    by_rest :
        (kept back : Text)
        → s ≡ kept ++ back
        → Delimiters delimit back
        → EndsClean delimit kept
        → (b : Text) × (c ∷ s
            ≡ elim kept [ [] ↦ if contains delimit c then [] else c ∷ [] | d ∷ rest ↦ c ∷ d ∷ rest ]
              ++ b)
          × Delimiters delimit b
          × EndsClean delimit (elim kept [
            | [] ↦ if contains delimit c then [] else c ∷ []
            | d ∷ rest ↦ c ∷ d ∷ rest
          ])
    by_rest [] back e d clean = elim (Bool-cases (contains delimit c)) [
      | inl on ↦ rw on (c ∷ back, ap (λ t. c ∷ t) e, (on, d), tt)
      | inr off ↦ rw off (back, ap (λ t. c ∷ t) e, d, off)
    ]
    by_rest (x ∷ kept) back e d clean = (back, ap (λ t. c ∷ t) e, d, clean)

StartsClean-up_to_last :
    (delimit s back : Text)
    → s ≡ up_to_last delimit s ++ back
    → StartsClean delimit s
    → StartsClean delimit (up_to_last delimit s)
StartsClean-up_to_last delimit s back e h = go s (up_to_last delimit s) e h
  where
    go : (t kept : Text) → t ≡ kept ++ back → StartsClean delimit t → StartsClean delimit kept
    go t [] p q = tt
    go [] (k ∷ kept) p q = cc
    go (x ∷ t) (k ∷ kept) p q = cc

-- `Trim` takes delimiters off both ends and nothing else; what is left neither starts nor ends with one.
pub trim_lem :
    (delimit s : Text)
    → (front back : Text) × (s ≡ front ++ (trim delimit s ++ back))
      × Delimiters delimit front
      × Delimiters delimit back
      × StartsClean delimit (trim delimit s)
      × EndsClean delimit (trim delimit s)
unfolding trim
trim_lem delimit s =
    let (front, e, d, start) = trim_left_lem delimit s in
    let (back, e', d', end_) = up_to_last_lem delimit (trim_left delimit s) in
    (
      front,
      back,
      e ∙ ap (λ t. front ++ t) e',
      d,
      d',
      StartsClean-up_to_last delimit (trim_left delimit s) back e' start,
      end_,
    )

without_last-append : (s : Text) (c : ℕ) → without_last (s ++ (c ∷ [])) ≡ s
unfolding without_last
without_last-append [] c = refl
without_last-append (x ∷ []) c = refl
without_last-append (x ∷ y ∷ s) c = ap (λ t. x ∷ t) (without_last-append (y ∷ s) c)

all-Delimiters : (delimit back : Text) → Delimiters delimit back → up_to_last delimit back ≡ []
unfolding up_to_last
all-Delimiters delimit [] d = refl
all-Delimiters delimit (c ∷ back) d = rw (all-Delimiters delimit back d.1, up_to_last, d.0)

kept_clean :
    (delimit s back : Text) (c : ℕ)
    → contains delimit c ≡ false
    → Delimiters delimit back
    → up_to_last delimit (s ++ (c ∷ back)) ≡ s ++ (c ∷ [])
unfolding up_to_last
kept_clean delimit [] back c h d = rw (all-Delimiters delimit back d, up_to_last, h)
kept_clean delimit (x ∷ []) back c h d = rw (kept_clean delimit [] back c h d, up_to_last)
kept_clean delimit (x ∷ y ∷ s) back c h d = rw (kept_clean delimit (y ∷ s) back c h d, up_to_last)

-- `TrimRight` takes the delimiters off the end, and with them the last byte that is none.
pub trim_right_lem :
    (delimit s back : Text) (c : ℕ)
    → contains delimit c ≡ false
    → Delimiters delimit back
    → trim_right delimit (s ++ (c ∷ back)) ≡ s
unfolding trim_right
trim_right_lem delimit s back c h d = rw (kept_clean delimit s back c h d) (without_last-append s c)
