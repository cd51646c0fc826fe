-- ===== src/Timer/Order.antt =====
-- The order of the set of timers.
use sylar_leo.Base.{
  ℕ, ◌<◌, ◌≡◌, ◌≢◌, ◌⊎◌, refl, inl, inr, true, false, not, ◌&&◌, Option, none, some, List, [], ◌∷◌,
  All, Bool-cases, subst, sym, arith,
}
use sylar_leo.Timer.{Timer, update, less, comparator, insert, find, erase}

-- Order of two timers in the set.
abbrev pub Before : (ℕ → Timer) → ℕ → ℕ → Type 0
Before heap a b = ((heap a).next < (heap b).next) ⊎ (((heap a).next ≡ (heap b).next) × (a < b))

abbrev pub IsSorted : (ℕ → Timer) → List ℕ → Type 0
IsSorted heap [] = Unit {0}
IsSorted heap (x ∷ xs) = All (λ y. less heap x y ≡ true) xs × IsSorted heap xs

abbrev pub NotIn : ℕ → List ℕ → Type 0
NotIn a = All (λ x. x ≢ a)

-- The comparator is a strict total order, the null pointer first.
pub comparator_order :
    (heap : ℕ → Timer) (a b c : Option ℕ)
    → (comparator heap a a ≡ false)
      × (comparator heap a b ≡ true → comparator heap b c ≡ true → comparator heap a c ≡ true)
      × (comparator heap a b ≡ false → comparator heap b a ≡ false → a ≡ b)
unfolding comparator
comparator_order heap none none c = (refl, (λ p q. cc), (λ p q. refl))
comparator_order heap none (some b) none = (refl, (λ p q. cc), (λ p q. cc))
comparator_order heap none (some b) (some c) = (refl, (λ p q. refl), (λ p q. cc))
comparator_order heap (some a) none c = (ground arith, (λ p q. cc), (λ p q. cc))
comparator_order heap (some a) (some b) none = (ground arith, (λ p q. cc), (λ p q. ground arith))
comparator_order heap (some a) (some b) (some c) =
    (ground arith, (λ p q. ground arith), (λ p q. ground arith))

-- The comparator is transitive and asymmetric, also with a null pointer.
pub comparator_trans :
    (heap : ℕ → Timer) (a b c : Option ℕ)
    → comparator heap a b ≡ true
    → comparator heap b c ≡ true
    → (comparator heap a c ≡ true) × (comparator heap b a ≡ false)
comparator_trans heap a b c p q =
    let (_, trans, _) = comparator_order heap a b c in
    (
      trans p q,
      elim (Bool-cases (comparator heap b a)) [
        | inl back ↦ absurd (loop a b p back)
        | inr apart ↦ apart
      ],
    )
  where
    loop : (x y : Option ℕ) → comparator heap x y ≡ true → comparator heap y x ≡ true → ⊥
    loop x y u v =
        let (irreflexive, trans, _) = comparator_order heap x y x in let around = trans u v in cc

less_trans :
    (heap : ℕ → Timer) (a b c : ℕ)
    → less heap a b ≡ true
    → less heap b c ≡ true
    → less heap a c ≡ true
less_trans heap a b c p q = ground arith

All-above :
    (heap : ℕ → Timer) (a b : ℕ) (xs : List ℕ)
    → less heap a b ≡ true
    → All (λ y. less heap b y ≡ true) xs
    → All (λ y. less heap a y ≡ true) xs
All-above heap a b [] p h = tt
All-above heap a b (x ∷ xs) p h = (less_trans heap a b x p h.0, All-above heap a b xs p h.1)

-- What holds of the timers of a set and of one more holds of the set with that one.
pub All-insert {κ} :
    (P : ℕ → Type κ) (heap : ℕ → Timer) (a : ℕ) (xs : List ℕ)
    → P a
    → All P xs
    → All P (insert heap a xs)
unfolding insert
All-insert P heap a [] p h = (p, tt)
All-insert P heap a (x ∷ xs) p h = elim (Bool-cases (less heap a x)) [
  | inl front ↦ rw front (p, h)
  | inr behind ↦ elim (Bool-cases (less heap x a)) [
    | inl later ↦ rw (behind, later) (h.0, All-insert P heap a xs p h.1)
    | inr same ↦ rw (behind, same) h
  ]
]

-- A bound from below on the set passes to the set with one more timer.
above_insert :
    (heap : ℕ → Timer) (a b : ℕ) (xs : List ℕ)
    → less heap a b ≡ true
    → All (λ y. less heap a y ≡ true) xs
    → All (λ y. less heap a y ≡ true) (insert heap b xs)
above_insert heap a b xs p h = All-insert (λ y. less heap a y ≡ true) heap b xs p h

pub insert-IsSorted :
    (heap : ℕ → Timer) (a : ℕ) (xs : List ℕ) → IsSorted heap xs → IsSorted heap (insert heap a xs)
unfolding insert
insert-IsSorted heap a [] s = (tt, tt)
insert-IsSorted heap a (x ∷ xs) s = elim (Bool-cases (less heap a x)) [
  | inl front ↦ rw front ((front, All-above heap a x xs front s.0), s)
  | inr behind ↦ elim (Bool-cases (less heap x a)) [
    | inl later ↦
        rw (behind, later) (above_insert heap x a xs later s.0, insert-IsSorted heap a xs s.1)
    | inr same ↦ rw (behind, same) s
  ]
]

pub All-erase {κ} :
    (P : ℕ → Type κ) (heap : ℕ → Timer) (a : ℕ) (xs : List ℕ) → All P xs → All P (erase heap a xs)
unfolding erase
All-erase P heap a [] h = tt
All-erase P heap a (x ∷ xs) h = elim (Bool-cases (not (less heap a x) && not (less heap x a))) [
  | inl same ↦ rw same h.1
  | inr other ↦ rw other (h.0, All-erase P heap a xs h.1)
]

pub erase-IsSorted :
    (heap : ℕ → Timer) (a : ℕ) (xs : List ℕ) → IsSorted heap xs → IsSorted heap (erase heap a xs)
unfolding erase
erase-IsSorted heap a [] s = tt
erase-IsSorted heap a (x ∷ xs) s = elim (Bool-cases (not (less heap a x) && not (less heap x a))) [
  | inl same ↦ rw same s.1
  | inr other ↦
      rw other (All-erase (λ y. less heap x y ≡ true) heap a xs s.0, erase-IsSorted heap a xs s.1)
]

pub above-NotIn :
    (heap : ℕ → Timer) (a : ℕ) (xs : List ℕ) → All (λ y. less heap a y ≡ true) xs → NotIn a xs
above-NotIn heap a [] h = tt
above-NotIn heap a (x ∷ xs) h = ((λ e. ground (arith, h.0)), above-NotIn heap a xs h.1)

-- `erase` leaves no copy behind.
pub erase-NotIn :
    (heap : ℕ → Timer) (a : ℕ) (xs : List ℕ) → IsSorted heap xs → NotIn a (erase heap a xs)
unfolding erase
erase-NotIn heap a [] s = tt
erase-NotIn heap a (x ∷ xs) s = elim (Bool-cases (not (less heap a x) && not (less heap x a))) [
  | inl same ↦
      let e : x ≡ a = ground (arith, same) in
      rw same (subst (λ y. NotIn y xs) e (above-NotIn heap x xs s.0))
  | inr other ↦ rw other ((λ e. ground (arith, other)), erase-NotIn heap a xs s.1)
]

-- A timer outside the set may change.
above_updated :
    (heap : ℕ → Timer) (a b : ℕ) (timer : Timer) (xs : List ℕ)
    → b ≢ a
    → NotIn a xs
    → All (λ y. less heap b y ≡ true) xs
    → All (λ y. less (update heap a timer) b y ≡ true) xs
above_updated heap a b timer [] k n h = tt
above_updated heap a b timer (x ∷ xs) k n h =
    (ground (arith, n.0, h.0), above_updated heap a b timer xs k n.1 h.1)

pub update-IsSorted :
    (heap : ℕ → Timer) (a : ℕ) (timer : Timer) (xs : List ℕ)
    → NotIn a xs
    → IsSorted heap xs
    → IsSorted (update heap a timer) xs
update-IsSorted heap a timer [] n s = tt
update-IsSorted heap a timer (x ∷ xs) n s =
    (above_updated heap a x timer xs n.0 n.1 s.0, update-IsSorted heap a timer xs n.1 s.1)

pub All-updated {κ} :
    (P : Timer → Type κ) (heap : ℕ → Timer) (a : ℕ) (timer : Timer) (xs : List ℕ)
    → NotIn a xs
    → All (λ x. P (heap x)) xs
    → All (λ x. P (update heap a timer x)) xs
All-updated P heap a timer [] n h = tt
All-updated P heap a timer (x ∷ xs) n h =
    let same : update heap a timer x ≡ heap x = ground (arith, n.0) in
    (subst P (sym same) h.0, All-updated P heap a timer xs n.1 h.1)

-- An inserted timer is found, and one that is not in the set is not.
pub find-insert : (heap : ℕ → Timer) (a : ℕ) (xs : List ℕ) → find heap a (insert heap a xs) ≡ true
unfolding find insert
find-insert heap a [] = ground arith
find-insert heap a (x ∷ xs) = elim (Bool-cases (less heap a x)) [
  | inl front ↦ rw front (ground arith)
  | inr behind ↦ elim (Bool-cases (less heap x a)) [
    | inl later ↦ rw (behind, later) (ground (arith, find-insert heap a xs))
    | inr same ↦ rw (behind, same) (ground (arith, behind, same))
  ]
]

pub find-NotIn : (heap : ℕ → Timer) (a : ℕ) (xs : List ℕ) → NotIn a xs → find heap a xs ≡ false
unfolding find
find-NotIn heap a [] n = refl
find-NotIn heap a (x ∷ xs) n = ground (arith, n.0, find-NotIn heap a xs n.1)
