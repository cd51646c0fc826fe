-- ===== src/Http/Headers/Order.antt =====
-- The order of the keys, and the map operations under it.
use sylar_leo.Base.{
  ◌≡◌, refl, sym, ap, ◌∙◌, Bool, true, false, ◌&&◌, not, Option, none, some, [], ◌∷◌, All, arith,
  inl, inr, Bool-cases, ◌==◌, if◌then◌else◌,
}
use sylar_leo.Base.Text.{Text, text_eq, text_eq_refl, eq_of_text_eq}
use sylar_leo.Util.Url.{Without}
use sylar_leo.Http.Headers.{
  c_str, folded, text_less, case_insensitive_less, same_key, MapType, lookup, set_value, erase_key,
}

-- Neither is less exactly where they are equal.
pub text_less_total : (s t : Text) → (not (text_less s t) && not (text_less t s)) ≡ text_eq s t
unfolding text_less
text_less_total [] [] = refl
text_less_total [] (y ∷ t) = refl
text_less_total (x ∷ s) [] = refl
text_less_total (x ∷ s) (y ∷ t) = ground (arith, text_less_total s t)

pub text_less_trans :
    (s t u : Text) → text_less s t ≡ true → text_less t u ≡ true → text_less s u ≡ true
unfolding text_less
text_less_trans [] [] u p q = cc
text_less_trans [] (y ∷ t) [] p q = cc
text_less_trans [] (y ∷ t) (z ∷ u) p q = refl
text_less_trans (x ∷ s) [] u p q = cc
text_less_trans (x ∷ s) (y ∷ t) [] p q = cc
text_less_trans (x ∷ s) (y ∷ t) (z ∷ u) p q = ground (arith, text_less_trans s t u)

text_less_irrefl : (s : Text) → text_less s s ≡ false
unfolding text_less
text_less_irrefl [] = refl
text_less_irrefl (x ∷ s) = ground (arith, text_less_irrefl s)

pub same_key_lem : (a b : Text) → same_key a b ≡ text_eq (folded a) (folded b)
unfolding same_key case_insensitive_less
same_key_lem a b = text_less_total (folded a) (folded b)

-- Keys that are the same for the map are the same for every comparison.
pub same_folded : (a b : Text) → same_key a b ≡ true → folded a ≡ folded b
same_folded a b h = eq_of_text_eq (folded a) (folded b) (sym (same_key_lem a b) ∙ h)

pub same_key_refl : (a : Text) → same_key a a ≡ true
same_key_refl a = same_key_lem a a ∙ text_eq_refl (folded a)

pub less_trans :
    (a b c : Text)
    → case_insensitive_less a b ≡ true
    → case_insensitive_less b c ≡ true
    → case_insensitive_less a c ≡ true
unfolding case_insensitive_less
less_trans a b c p q = text_less_trans (folded a) (folded b) (folded c) p q

-- A key is either the same as another or on one side of it.
pub less_cases :
    (a b : Text)
    → same_key a b ≡ false
    → case_insensitive_less b a ≡ false
    → case_insensitive_less a b ≡ true
unfolding same_key
less_cases a b p q = ground (arith, p, q)

pub less_apart : (a b : Text) → case_insensitive_less a b ≡ true → same_key a b ≡ false
unfolding same_key
less_apart a b h = ground (arith, h)

pub less_apart_back : (a b : Text) → case_insensitive_less a b ≡ true → same_key b a ≡ false
unfolding same_key
less_apart_back a b h = ground (arith, h)

-- Replacing a key by one that is the same changes no comparison.
pub same_less :
    (a b c : Text)
    → same_key a b ≡ true
    → (case_insensitive_less a c ≡ case_insensitive_less b c) × (same_key a c ≡ same_key b c)
same_less a b c h =
    let e = same_folded a b h in
    (
      unfold case_insensitive_less in ap (λ t. text_less t (folded c)) e,
      same_key_lem a c ∙ ap (λ t. text_eq t (folded c)) e ∙ sym (same_key_lem b c),
    )

abbrev pub Above : Text → MapType → Type 0
Above a = All (λ p. case_insensitive_less a p.0 ≡ true)

abbrev pub IsSorted : MapType → Type 0
IsSorted [] = Unit {0}
IsSorted (p ∷ m) = Above p.0 m × IsSorted m

Above_trans : (a b : Text) (m : MapType) → case_insensitive_less a b ≡ true → Above b m → Above a m
Above_trans a b [] h w = tt
Above_trans a b (p ∷ m) h w = (less_trans a b p.0 h w.0, Above_trans a b m h w.1)

Above-set_value :
    (a key val : Text) (m : MapType)
    → case_insensitive_less a key ≡ true
    → Above a m
    → Above a (set_value key val m)
unfolding set_value
Above-set_value a key val [] h w = (h, tt)
Above-set_value a key val (p ∷ m) h w = elim (Bool-cases (same_key p.0 key)) [
  | inl same ↦ rw same (w.0, w.1)
  | inr apart ↦ elim (Bool-cases (case_insensitive_less key p.0)) [
    | inl front ↦ rw (apart, front) (h, (w.0, w.1))
    | inr behind ↦ rw (apart, behind) (w.0, Above-set_value a key val m h w.1)
  ]
]

pub set_value-IsSorted :
    (key val : Text) (m : MapType) → IsSorted m → IsSorted (set_value key val m)
unfolding set_value
set_value-IsSorted key val [] s = (tt, tt)
set_value-IsSorted key val (p ∷ m) s = elim (Bool-cases (same_key p.0 key)) [
  | inl same ↦ rw same (s.0, s.1)
  | inr apart ↦ elim (Bool-cases (case_insensitive_less key p.0)) [
    | inl front ↦ rw (apart, front) ((front, Above_trans key p.0 m front s.0), (s.0, s.1))
    | inr behind ↦
        rw (apart, behind)
          (
            Above-set_value p.0 key val m (less_cases p.0 key apart behind) s.0,
            set_value-IsSorted key val m s.1,
          )
  ]
]

Above-erase_key : (a key : Text) (m : MapType) → Above a m → Above a (erase_key key m)
unfolding erase_key
Above-erase_key a key [] w = tt
Above-erase_key a key (p ∷ m) w = elim (Bool-cases (same_key p.0 key)) [
  | inl same ↦ rw same w.1
  | inr apart ↦ rw apart (w.0, Above-erase_key a key m w.1)
]

pub erase_key-IsSorted : (key : Text) (m : MapType) → IsSorted m → IsSorted (erase_key key m)
unfolding erase_key
erase_key-IsSorted key [] s = tt
erase_key-IsSorted key (p ∷ m) s = elim (Bool-cases (same_key p.0 key)) [
  | inl same ↦ rw same s.1
  | inr apart ↦ rw apart (Above-erase_key p.0 key m s.0, erase_key-IsSorted key m s.1)
]

-- A key below all others is not found.
lookup-Above :
    (a key : Text) (m : MapType) → same_key a key ≡ true → Above a m → lookup key m ≡ none
unfolding lookup
lookup-Above a key [] h w = refl
lookup-Above a key (p ∷ m) h w =
    let below = (same_less a key p.0 h).0 ∙ refl in
    rw (less_apart_back key p.0 (sym below ∙ w.0)) (lookup-Above a key m h w.1)

same_key_comm : (a b : Text) → same_key a b ≡ same_key b a
unfolding same_key
same_key_comm a b = ground arith

-- No key is the same as two that differ, so the order of two tests does not matter.
swapped :
    (a b other : Text) (x y z : Option Text)
    → same_key a b ≡ false
    → (if same_key a other then x else (if same_key b other then y else z))
      ≡ (if same_key b other then y else (if same_key a other then x else z))
swapped a b other x y z apart = elim (Bool-cases (same_key a other)) [
  | inl same ↦
      let no_b : same_key b other ≡ false =
        same_key_comm b other ∙ sym (same_less a other b same).1 ∙ apart in
      rw (same, no_b)
  | inr off ↦ rw off
]

pub lookup-set_value :
    (key val other : Text) (m : MapType)
    → lookup other (set_value key val m) ≡ (if same_key key other then some val else lookup other m)
unfolding lookup set_value
lookup-set_value key val other [] = refl
lookup-set_value key val other (p ∷ m) = elim (Bool-cases (same_key p.0 key)) [
  | inl same ↦
      let e = (same_less p.0 key other same).1 in
      rw (same, lookup, e) (twice (same_key key other) (some val) (some p.1) (lookup other m))
  | inr apart ↦ elim (Bool-cases (case_insensitive_less key p.0)) [
    | inl front ↦ rw (apart, front) refl
    | inr behind ↦
        rw (apart, behind, lookup, lookup-set_value key val other m)
          (swapped p.0 key other (some p.1) (some val) (lookup other m) apart)
  ]
]
  where
    twice :
        (b : Bool) (x y z : Option Text)
        → (if b then x else z) ≡ (if b then x else (if b then y else z))
    twice true x y z = refl
    twice false x y z = refl

pub lookup-erase_key :
    (key other : Text) (m : MapType)
    → IsSorted m
    → lookup other (erase_key key m) ≡ (if same_key key other then none else lookup other m)
unfolding lookup erase_key
lookup-erase_key key other [] s = either (same_key key other)
  where
    either : (b : Bool) → ◌≡◌ {A = Option Text} none (if b then none else none)
    either true = refl
    either false = refl
lookup-erase_key key other (p ∷ m) s = elim (Bool-cases (same_key p.0 key)) [
  | inl same ↦
      let e = (same_less p.0 key other same).1 in
      elim (Bool-cases (same_key key other)) [
        | inl hit ↦ rw (same, hit) (lookup-Above p.0 other m (e ∙ hit) s.0)
        | inr miss ↦ rw (same, miss, lookup, e, miss)
      ]
  | inr apart ↦
      rw (apart, lookup, lookup-erase_key key other m s.1)
        (swapped p.0 key other (some p.1) none (lookup other m) apart)
]

-- No space comes in by folding.
pub folded-Without : (s : Text) → Without 32 s → Without 32 (folded s)
unfolding folded c_str
folded-Without [] h = tt
folded-Without (c ∷ s) h = elim (Bool-cases (c == 0)) [
  | inl end ↦ rw end tt
  | inr more ↦ rw more ((λ e. absurd (h.0 (ground (arith, e)))), folded-Without s h.1)
]
