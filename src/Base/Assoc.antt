-- ===== src/Base/Assoc.antt =====
-- Maps from text as lists of pairs: what `std::map` and `std::unordered_map` promise of one key.
use mathlib.Core.Path.{◌≡◌, refl, sym, subst, ◌∙◌}
use mathlib.Core.Logic.{inl, inr}
use mathlib.Core.Bool.{true, false}
use mathlib.Core.Option.{Option, none, some}
use mathlib.Core.List.{List, [], ◌∷◌}
use native.Mathlib.Omega.{arith}
use sylar_leo.Base.Tests.{if◌then◌else◌, Bool-cases}
use sylar_leo.Base.Text.{Text, text_eq, text_eq_refl, eq_of_text_eq}

module _ {ℓ} {A : Type ℓ} where
  abbrev pub find : Text → List (Text × A) → Option A
  find key [] = none
  find key ((k, a) ∷ entries) = if text_eq k key then some a else find key entries

  abbrev pub assign : Text → A → List (Text × A) → List (Text × A)
  assign key a [] = (key, a) ∷ []
  assign key a ((k, old) ∷ entries) =
      if text_eq k key then (k, a) ∷ entries else (k, old) ∷ assign key a entries

-- A key that equals `u` and not `v` tells the two apart.
pub apart : (k u v : Text) → text_eq k u ≡ true → text_eq k v ≡ false → text_eq v u ≡ false
apart k u v here other = elim (Bool-cases (text_eq v u)) [
  | inl same ↦
      let e : k ≡ v = eq_of_text_eq k u here ∙ sym (eq_of_text_eq v u same) in
      let r : text_eq k v ≡ true = subst (λ x. text_eq k x ≡ true) e (text_eq_refl k) in
      absurd (ground (arith, other, r))
  | inr differs ↦ differs
]

pub find-assign {ℓ} :
    {A : Type ℓ} (key u : Text) (a : A) (es : List (Text × A))
    → find u (assign key a es) ≡ (if text_eq key u then some a else find u es)
find-assign key u a [] = refl
find-assign key u a ((k, old) ∷ es) = elim (Bool-cases (text_eq k key)) [
  | inl same ↦ elim (Bool-cases (text_eq key u)) [
    | inl here ↦ rw (same, eq_of_text_eq k key same, here) refl
    | inr there ↦ rw (same, eq_of_text_eq k key same, there) refl
  ]
  | inr other ↦ elim (Bool-cases (text_eq k u)) [
    | inl here ↦ rw (other, here, apart k u key here other) refl
    | inr there ↦ rw (other, there) (find-assign key u a es)
  ]
]
