-- ===== src/Address.antt =====
-- sylar/address.cpp: the order of addresses, and the masks of an IPv4 address. `s_addr` is kept in the
-- byte order of the host, which the code swaps on both sides of each operation.
pub mod Ordering
pub mod Subnet
pub mod Ipv6
mod Examples
use sylar_leo.Base.{
  ℕ, zero, suc, ◌+◌, ◌-◌, ◌*◌, ◌^◌, min, Bool, true, false, ◌&&◌, Option, none, some, List, [], ◌∷◌,
  ltb, leb, ◌==◌, if◌then◌else◌, length,
}
use sylar_leo.Base.Text.{Text}
use Prim.Native.Nat.{bit_and, bit_or}

-- The sign of `memcmp`.
pub data Sign : Type 0 where
  negative zero_sign positive : Sign

-- `memcmp` of the first `n` bytes.
pub memcmp : ℕ → Text → Text → Sign
memcmp zero a b = zero_sign
memcmp (suc n) [] b = zero_sign
memcmp (suc n) (x ∷ a) [] = zero_sign
memcmp (suc n) (x ∷ a) (y ∷ b) =
    let rest = memcmp n a b in if ltb x y then negative else if ltb y x then positive else rest

-- `Address::operator<`, on the bytes of `getAddr()`, which are `getAddrLen()` many.
pub address_less : Text → Text → Bool
unfolding memcmp
address_less lhs rhs = elim (memcmp (min (length lhs) (length rhs)) lhs rhs) [
  | negative ↦ true
  | positive ↦ false
  | zero_sign ↦ ltb (length lhs) (length rhs)
]

is_zero : Sign → Bool
is_zero negative = false
is_zero zero_sign = true
is_zero positive = false

-- `Address::operator==`.
pub address_equal : Text → Text → Bool
unfolding memcmp is_zero
address_equal lhs rhs = (length lhs == length rhs) && is_zero (memcmp (length lhs) lhs rhs)

-- `CreateMask<uint32_t>`: `none` where the shift or the subtraction of the `int` has no defined value.
pub create_mask : (bits : ℕ) → Option ℕ
create_mask bits =
    if leb 2 bits then (if leb bits 32 then some (2 ^ (32 - bits) - 1) else none) else none

-- What the functions of a prefix length return: the null pointer, an address, or no defined value.
pub data Masked : Type 0 where
  null undefined_shift : Masked
  address : ℕ → Masked

masked : (ℕ → ℕ) → Option ℕ → Masked
masked f none = undefined_shift
masked f (some mask) = address (f mask)

pub broadcast_address : (prefix_len s_addr : ℕ) → Masked
unfolding create_mask masked
broadcast_address prefix_len s_addr =
    if ltb 32 prefix_len then null else masked (λ mask. bit_or s_addr mask) (create_mask prefix_len)

pub netword_address : (prefix_len s_addr : ℕ) → Masked
unfolding create_mask masked
netword_address prefix_len s_addr =
    if ltb 32 prefix_len
    then null
    else masked (λ mask. bit_and s_addr mask) (create_mask prefix_len)

pub subnet_mask : (prefix_len : ℕ) → Masked
unfolding create_mask masked
subnet_mask prefix_len = masked (λ mask. 2 ^ 32 - 1 - mask) (create_mask prefix_len)
