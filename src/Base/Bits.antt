-- ===== src/Base/Bits.antt =====
-- The binary operations of native numbers as arithmetic: one equation for the lowest digit, and the
-- masks and disjoint fields that the program uses.
use Prim.Native.Nat.{
  ℕ, zero, suc, ◌+◌, ◌-◌, ◌*◌, ◌/◌, ◌%◌, ◌^◌, ◌≤◌, ◌<◌, min, max, bit_and, bit_or, bit_xor, digits,
  bitwise, differ, bit_and-bitwise, bit_or-bitwise, bit_xor-bitwise,
}
use mathlib.Core.Path.{◌≡◌, refl, ap}
use native.Mathlib.Nat.{pow-suc, le_refl}
use native.Mathlib.Omega.{arith}

-- More fuel than the first number gives the same digits.
module _ (z : ℕ → ℕ) (f : ℕ → ℕ → ℕ) where
  same_digits : (m n a b : ℕ) → a ≤ m → a ≤ n → digits z f m a b ≡ digits z f n a b
  same_digits zero zero a b p q = refl
  same_digits zero (suc n) zero b p q = refl
  same_digits zero (suc n) (suc a) b p q = absurd (omega arith)
  same_digits (suc m) zero zero b p q = refl
  same_digits (suc m) zero (suc a) b p q = absurd (omega arith)
  same_digits (suc m) (suc n) zero b p q = refl
  same_digits (suc m) (suc n) (suc a) b p q =
      rw (same_digits m n (suc a / 2) (b / 2) (omega arith) (omega arith))

  lowest_digit :
      (a b : ℕ)
      → bitwise z f (suc a) b ≡ bitwise z f (suc a / 2) (b / 2) * 2 + f (suc a % 2) (b % 2)
  lowest_digit a b =
      omega (arith, same_digits a (suc a / 2) (suc a / 2) (b / 2) (omega arith) (le_refl _))

pub bit_or_lowest : (a b : ℕ) → bit_or a b ≡ bit_or (a / 2) (b / 2) * 2 + max (a % 2) (b % 2)
bit_or_lowest zero b = simp bit_or-bitwise (omega arith)
bit_or_lowest (suc a) b = simp bit_or-bitwise (lowest_digit (λ y. y) max a b)

pub bit_and_lowest : (a b : ℕ) → bit_and a b ≡ bit_and (a / 2) (b / 2) * 2 + min (a % 2) (b % 2)
bit_and_lowest zero b = simp bit_and-bitwise (omega arith)
bit_and_lowest (suc a) b = simp bit_and-bitwise (lowest_digit (λ y. 0) min a b)

differ_digits : (a b : ℕ) → a < 2 → b < 2 → differ a b ≡ (a + b) % 2
differ_digits zero zero h k = refl
differ_digits zero (suc zero) h k = refl
differ_digits (suc zero) zero h k = refl
differ_digits (suc zero) (suc zero) h k = refl
differ_digits zero (suc (suc b)) h k = absurd (omega arith)
differ_digits (suc zero) (suc (suc b)) h k = absurd (omega arith)
differ_digits (suc (suc a)) b h k = absurd (omega arith)

pub bit_xor_lowest : (a b : ℕ) → bit_xor a b ≡ bit_xor (a / 2) (b / 2) * 2 + (a % 2 + b % 2) % 2
bit_xor_lowest zero b = simp bit_xor-bitwise (omega arith)
bit_xor_lowest (suc a) b =
    simp bit_xor-bitwise
      (omega (arith, lowest_digit (λ y. y) differ a b, differ_digits (suc a % 2) (b % 2)))

-- Zero on the right, with a bound on the first number to recur on.
bit_and-zero_bounded : (n a : ℕ) → a ≤ n → bit_and a 0 ≡ 0
bit_and-zero_bounded n zero h = refl
bit_and-zero_bounded zero (suc a) h = absurd (omega arith)
bit_and-zero_bounded (suc n) (suc a) h =
    omega (arith, bit_and_lowest (suc a) 0, bit_and-zero_bounded n (suc a / 2) (omega arith))

bit_xor-zero_bounded : (n a : ℕ) → a ≤ n → bit_xor a 0 ≡ a
bit_xor-zero_bounded n zero h = refl
bit_xor-zero_bounded zero (suc a) h = absurd (omega arith)
bit_xor-zero_bounded (suc n) (suc a) h =
    omega (arith, bit_xor_lowest (suc a) 0, bit_xor-zero_bounded n (suc a / 2) (omega arith))

bit_or-zero_bounded : (n a : ℕ) → a ≤ n → bit_or a 0 ≡ a
bit_or-zero_bounded n zero h = refl
bit_or-zero_bounded zero (suc a) h = absurd (omega arith)
bit_or-zero_bounded (suc n) (suc a) h =
    omega (arith, bit_or_lowest (suc a) 0, bit_or-zero_bounded n (suc a / 2) (omega arith))

pub bit_xor-zero : (a : ℕ) → bit_xor a 0 ≡ a
bit_xor-zero a = bit_xor-zero_bounded a a (le_refl a)

zero-bit_or : (b : ℕ) → bit_or 0 b ≡ b
zero-bit_or b = simp bit_or-bitwise refl

pub bit_and-one : (a : ℕ) → bit_and a 1 ≡ a % 2
bit_and-one a = omega (arith, bit_and_lowest a 1, bit_and-zero_bounded (a / 2) (a / 2) (le_refl _))

-- Against a mask of `k` ones, exclusive or is the complement.
pub bit_xor_ones : (k a : ℕ) → a < 2 ^ k → bit_xor a (2 ^ k - 1) ≡ 2 ^ k - 1 - a
bit_xor_ones zero a h = let e : a ≡ 0 = omega arith in rw e
bit_xor_ones (suc k) a h =
    let half : (2 ^ suc k - 1) / 2 ≡ 2 ^ k - 1 = omega (arith, pow-suc 2 k) in
    omega (
      arith,
      bit_xor_lowest a (2 ^ suc k - 1),
      ap (bit_xor (a / 2)) half,
      pow-suc 2 k,
      bit_xor_ones k (a / 2) (omega (arith, pow-suc 2 k)),
    )

-- `r | (q << k)` is a sum where `r` fits `k` bits.
pub bit_or_disjoint : (k q r : ℕ) → r < 2 ^ k → bit_or r (q * 2 ^ k) ≡ r + q * 2 ^ k
bit_or_disjoint zero q r h = let e : r ≡ 0 = omega arith in rw (e, zero-bit_or) (omega arith)
bit_or_disjoint (suc k) q r h =
    let shifted : q * 2 ^ suc k ≡ 2 * (q * 2 ^ k) =
      omega (arith, ap (λ (t : ℕ). q * t) (pow-suc 2 k)) in
    let half : q * 2 ^ suc k / 2 ≡ q * 2 ^ k = omega arith in
    omega (
      arith,
      bit_or_lowest r (q * 2 ^ suc k),
      ap (bit_or (r / 2)) half,
      pow-suc 2 k,
      bit_or_disjoint k q (r / 2) (omega (arith, pow-suc 2 k)),
    )

pub bit_and_seven_ones : (a : ℕ) → bit_and a 0x7f ≡ a % 128
bit_and_seven_ones a = omega (
  arith,
  bit_and_lowest a 127,
  bit_and_lowest (a / 2) 63,
  bit_and_lowest (a / 2 / 2) 31,
  bit_and_lowest (a / 2 / 2 / 2) 15,
  bit_and_lowest (a / 2 / 2 / 2 / 2) 7,
  bit_and_lowest (a / 2 / 2 / 2 / 2 / 2) 3,
  bit_and-one (a / 2 / 2 / 2 / 2 / 2 / 2),
)

-- A mask of `k` ones keeps the low field and drops the rest.
pub bit_and_low : (k q r : ℕ) → r < 2 ^ k → bit_and (q * 2 ^ k + r) (2 ^ k - 1) ≡ r
bit_and_low zero q r h = omega (arith, bit_and-zero_bounded (q * 1 + r) (q * 1 + r) (le_refl _))
bit_and_low (suc k) q r h =
    let shifted : q * 2 ^ suc k ≡ 2 * (q * 2 ^ k) =
      omega (arith, ap (λ (t : ℕ). q * t) (pow-suc 2 k)) in
    let half : (q * 2 ^ suc k + r) / 2 ≡ q * 2 ^ k + r / 2 = omega (arith, shifted) in
    let ones : (2 ^ suc k - 1) / 2 ≡ 2 ^ k - 1 = omega (arith, pow-suc 2 k) in
    omega (
      arith,
      bit_and_lowest (q * 2 ^ suc k + r) (2 ^ suc k - 1),
      ap (λ (t : ℕ). bit_and t ((2 ^ suc k - 1) / 2)) half,
      ap (bit_and (q * 2 ^ k + r / 2)) ones,
      pow-suc 2 k,
      shifted,
      bit_and_low k q (r / 2) (omega (arith, pow-suc 2 k)),
    )

-- Or with a mask of `k` ones fills the low field.
pub bit_or_low :
    (k q r : ℕ) → r < 2 ^ k → bit_or (q * 2 ^ k + r) (2 ^ k - 1) ≡ q * 2 ^ k + (2 ^ k - 1)
bit_or_low zero q r h = omega (arith, bit_or-zero_bounded (q * 1 + r) (q * 1 + r) (le_refl _))
bit_or_low (suc k) q r h =
    let shifted : q * 2 ^ suc k ≡ 2 * (q * 2 ^ k) =
      omega (arith, ap (λ (t : ℕ). q * t) (pow-suc 2 k)) in
    let half : (q * 2 ^ suc k + r) / 2 ≡ q * 2 ^ k + r / 2 = omega (arith, shifted) in
    let ones : (2 ^ suc k - 1) / 2 ≡ 2 ^ k - 1 = omega (arith, pow-suc 2 k) in
    omega (
      arith,
      bit_or_lowest (q * 2 ^ suc k + r) (2 ^ suc k - 1),
      ap (λ (t : ℕ). bit_or t ((2 ^ suc k - 1) / 2)) half,
      ap (bit_or (q * 2 ^ k + r / 2)) ones,
      pow-suc 2 k,
      shifted,
      bit_or_low k q (r / 2) (omega (arith, pow-suc 2 k)),
    )
