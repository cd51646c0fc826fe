-- ===== src/Address/Ordering.antt =====
-- That addresses are ordered as a dictionary is.
use sylar_leo.Base.{
  suc, ◌≡◌, refl, sym, ◌∙◌, Bool, true, false, not, ◌&&◌, [], ◌∷◌, arith, min, ltb, ◌==◌, length,
  Bool-cases, inl, inr,
}
use sylar_leo.Base.Text.{Text, text_eq}
use sylar_leo.Http.Headers.{text_less}
use sylar_leo.Http.Headers.Order.{text_less_total, text_less_trans}
use sylar_leo.Address.{
  Sign, negative, zero_sign, positive, memcmp, address_less, is_zero, address_equal,
}

abbrev sign_less : Sign → Bool → Bool
sign_less negative shorter = true
sign_less zero_sign shorter = shorter
sign_less positive shorter = false

memcmp-text_less :
    (a b : Text)
    → sign_less (memcmp (min (length a) (length b)) a b) (ltb (length a) (length b)) ≡ text_less a b
unfolding memcmp text_less
memcmp-text_less [] [] = refl
memcmp-text_less [] (y ∷ b) =
    let e : min 0 (suc (length b)) ≡ 0 = omega arith in rw e (ground arith)
memcmp-text_less (x ∷ a) [] =
    let e : min (suc (length a)) 0 ≡ 0 = omega arith in rw e (ground arith)
memcmp-text_less (x ∷ a) (y ∷ b) =
    let e : min (suc (length a)) (suc (length b)) ≡ suc (min (length a) (length b)) = omega arith in
    let shorter : ltb (suc (length a)) (suc (length b)) ≡ ltb (length a) (length b) =
      ground arith in
    rw (e, shorter)
      (elim (Bool-cases (ltb x y)) [
        | inl below ↦ rw below refl
        | inr not_below ↦ elim (Bool-cases (ltb y x)) [
          | inl above ↦ rw (not_below, above) refl
          | inr same ↦ rw (not_below, same) (memcmp-text_less a b)
        ]
      ])

address_less-sign :
    (a b : Text)
    → address_less a b
      ≡ sign_less (memcmp (min (length a) (length b)) a b) (ltb (length a) (length b))
unfolding address_less
address_less-sign a b = go (memcmp (min (length a) (length b)) a b)
  where
    go :
        (s : Sign)
        → (elim s [ negative ↦ true | positive ↦ false | zero_sign ↦ ltb (length a) (length b) ])
          ≡ sign_less s (ltb (length a) (length b))
    go negative = refl
    go zero_sign = refl
    go positive = refl

-- `operator<` compares byte by byte as a dictionary does, where a shorter address that starts a longer
-- one comes first.
pub address_less_lem : (a b : Text) → address_less a b ≡ text_less a b
address_less_lem a b = address_less-sign a b ∙ memcmp-text_less a b

address_equal-text_eq : (a b : Text) → address_equal a b ≡ text_eq a b
unfolding address_equal memcmp is_zero
address_equal-text_eq [] [] = refl
address_equal-text_eq [] (y ∷ b) = ground arith
address_equal-text_eq (x ∷ a) [] = ground arith
address_equal-text_eq (x ∷ a) (y ∷ b) =
    let lens : (suc (length a) == suc (length b)) ≡ (length a == length b) = ground arith in
    elim (Bool-cases (ltb x y)) [
      | inl below ↦
          let differ : (x == y) ≡ false = ground (arith, below) in
          rw (address_equal, lens, memcmp, below, differ) (and_false (length a == length b))
      | inr not_below ↦ elim (Bool-cases (ltb y x)) [
        | inl above ↦
            let differ : (x == y) ≡ false = ground (arith, above) in
            rw (address_equal, lens, memcmp, not_below, above, differ)
              (and_false (length a == length b))
        | inr not_above ↦
            let same : (x == y) ≡ true = ground (arith, not_below, not_above) in
            rw (address_equal, lens, memcmp, not_below, not_above, same) (address_equal-text_eq a b)
      ]
    ]
  where
    and_false : (b : Bool) → (b && false) ≡ false
    and_false true = refl
    and_false false = refl

-- `operator<` and `operator==` fit: two addresses are equal exactly where neither is less.
pub address_equal_lem :
    (a b : Text) → address_equal a b ≡ (not (address_less a b) && not (address_less b a))
address_equal_lem a b =
    rw (address_less_lem a b, address_less_lem b a)
      (address_equal-text_eq a b ∙ sym (text_less_total a b))

pub address_less_trans :
    (a b c : Text) → address_less a b ≡ true → address_less b c ≡ true → address_less a c ≡ true
address_less_trans a b c p q =
    address_less_lem a c
    ∙ text_less_trans a b c (sym (address_less_lem a b) ∙ p) (sym (address_less_lem b c) ∙ q)
