-- ===== src/Address/Ipv6.antt =====
-- sylar/address.cpp: the masks and the text of an IPv6 address, on the sixteen bytes of `s6_addr`.
use sylar_leo.Base.{
  ℕ, zero, suc, ◌+◌, ◌-◌, ◌*◌, ◌/◌, ◌%◌, ◌^◌, ◌≤◌, ◌<◌, ◌≡◌, refl, ap, ◌∙◌, Bool, true, false, ◌&&◌,
  ◌||◌, not, Option, none, some, List, [], ◌∷◌, ◌++◌, ltb, ◌==◌, if◌then◌else◌, length, replicate,
  arith, lt→ltb,
}
use sylar_leo.Base.Text.{Text, codes, decimal}
use sylar_leo.Base.Bits.{bit_or_low, bit_and_low}
use Prim.Native.Nat.{bit_and, bit_or}

-- `CreateMask<uint8_t>` of less than eight bits.
unfoldable pub create_byte_mask : (bits : ℕ) → ℕ
create_byte_mask bits = (2 ^ (8 - bits) - 1) % 2 ^ 8

-- The byte at a place is changed, and the bytes behind it are set.
abbrev pub change_from : ℕ → (ℕ → ℕ) → (fill : ℕ) → Text → Text
change_from k f fill [] = []
change_from zero f fill (b ∷ s) = f b ∷ replicate (length s) fill
change_from (suc k) f fill (b ∷ s) = b ∷ change_from k f fill s

-- `none` where the byte is behind the end of the address.
unfoldable pub ipv6_broadcast_address : (prefix_len : ℕ) → Text → Option Text
unfolding create_byte_mask
ipv6_broadcast_address prefix_len s6_addr =
    if ltb (prefix_len / 8) 16
    then some (
        change_from (prefix_len / 8) (λ b. bit_or b (create_byte_mask (prefix_len % 8))) 0xff
          s6_addr)
    else none

unfoldable pub ipv6_netword_address : (prefix_len : ℕ) → Text → Option Text
unfolding create_byte_mask
ipv6_netword_address prefix_len s6_addr =
    if ltb (prefix_len / 8) 16
    then some (
        change_from (prefix_len / 8) (λ b. bit_and b (create_byte_mask (prefix_len % 8))) 0x00
          s6_addr)
    else none

unfoldable pub ipv6_subnet_mask : (prefix_len : ℕ) → Option Text
unfolding create_byte_mask
ipv6_subnet_mask prefix_len =
    if ltb (prefix_len / 8) 16
    then some (
        change_from (prefix_len / 8) (λ b. 2 ^ 8 - 1 - create_byte_mask (prefix_len % 8)) 0xff
          (replicate 16 0))
    else none

change_from-append :
    (f : ℕ → ℕ) (fill : ℕ) (front : Text) (b : ℕ) (back : Text)
    → change_from (length front) f fill (front ++ b ∷ back)
      ≡ front ++ f b ∷ replicate (length back) fill
change_from-append f fill [] b back = refl
change_from-append f fill (x ∷ front) b back =
    ap (λ l. x ∷ l) (change_from-append f fill front b back)

-- An address of sixteen bytes, cut in the byte in which a prefix ends: that byte has `net` in front of the
-- end and `host` behind it.
pub record Cut (prefix_len : ℕ) (front : Text) (net host : ℕ) (back : Text) : Type 0 where
  pub sixteen : length front + suc (length back) ≡ 16
  pub place : prefix_len / 8 ≡ length front
  pub fits : host < 2 ^ (8 - prefix_len % 8)

abbrev pub cut_byte : (prefix_len net host : ℕ) → ℕ
cut_byte prefix_len net host = net * 2 ^ (8 - prefix_len % 8) + host

power_bound : (e : ℕ) → e ≤ 8 → 2 ^ e ≤ 256
power_bound zero h = omega arith
power_bound (suc zero) h = omega arith
power_bound (suc (suc zero)) h = omega arith
power_bound (suc (suc (suc zero))) h = omega arith
power_bound (suc (suc (suc (suc zero)))) h = omega arith
power_bound (suc (suc (suc (suc (suc zero))))) h = omega arith
power_bound (suc (suc (suc (suc (suc (suc zero)))))) h = omega arith
power_bound (suc (suc (suc (suc (suc (suc (suc zero))))))) h = omega arith
power_bound (suc (suc (suc (suc (suc (suc (suc (suc e)))))))) h =
    let e0 : e ≡ 0 = omega (arith, h) in rw e0 (omega arith)

byte_mask_lem : (bits : ℕ) → create_byte_mask bits ≡ 2 ^ (8 - bits) - 1
unfolding create_byte_mask
byte_mask_lem bits = let h = power_bound (8 - bits) (omega arith) in omega (arith, h)

-- For an IPv6 address cut in the byte in which a prefix of less than 128 bits ends: the broadcast address
-- has ones behind the prefix; `networdAddress` keeps the host bits of the byte in which the prefix ends,
-- loses its network bits, and has zeros behind it.
pub ipv6_masks_lem :
    (prefix_len : ℕ) (front : Text) (net host : ℕ) (back : Text)
    → Cut prefix_len front net host back
    → (ipv6_broadcast_address prefix_len (front ++ cut_byte prefix_len net host ∷ back)
        ≡ some (
            front
            ++ cut_byte prefix_len net (2 ^ (8 - prefix_len % 8) - 1)
              ∷ replicate (length back) 0xff))
      × (ipv6_netword_address prefix_len (front ++ cut_byte prefix_len net host ∷ back)
          ≡ some (front ++ host ∷ replicate (length back) 0))
unfolding ipv6_broadcast_address ipv6_netword_address
ipv6_masks_lem prefix_len front net host back c =
    let r = prefix_len % 8 in
    let byte = cut_byte prefix_len net host in
    let inside : ltb (prefix_len / 8) 16 ≡ true =
      lt→ltb (prefix_len / 8) 16 (omega (arith, c.sixteen, c.place)) in
    let or_mask : ℕ → ℕ = λ b. bit_or b (create_byte_mask r) in
    let and_mask : ℕ → ℕ = λ b. bit_and b (create_byte_mask r) in
    (
      rw inside (
          ap some (
            ap (λ k. change_from k or_mask 0xff (front ++ byte ∷ back)) c.place
            ∙ change_from-append or_mask 0xff front byte back
            ∙ ap (λ x. front ++ x ∷ replicate (length back) 0xff)
                (ap (bit_or byte) (byte_mask_lem r) ∙ bit_or_low (8 - r) net host c.fits))),
      rw inside (
          ap some (
            ap (λ k. change_from k and_mask 0x00 (front ++ byte ∷ back)) c.place
            ∙ change_from-append and_mask 0x00 front byte back
            ∙ ap (λ x. front ++ x ∷ replicate (length back) 0x00)
                (ap (bit_and byte) (byte_mask_lem r) ∙ bit_and_low (8 - r) net host c.fits))),
    )

-- The eight groups of an address.
abbrev pub groups : Text → List ℕ
groups [] = []
groups (hi ∷ []) = []
groups (hi ∷ lo ∷ s) = (hi * 256 + lo) ∷ groups s

abbrev pub hex_digit : ℕ → ℕ
hex_digit d = if ltb d 10 then 48 + d else 87 + d

-- `std::hex` of a number of at most sixteen bits.
unfoldable pub hex : ℕ → Text
hex g =
    let d0 = hex_digit (g % 16) in
    let d1 = hex_digit (g / 16 % 16) in
    let d2 = hex_digit (g / 256 % 16) in
    let d3 = hex_digit (g / 4096 % 16) in
    if ltb g 16
    then d0 ∷ []
    else if ltb g 256
    then d1 ∷ d0 ∷ []
    else if ltb g 4096
    then d2 ∷ d1 ∷ d0 ∷ []
    else d3 ∷ d2 ∷ d1 ∷ d0 ∷ []

abbrev pub is_zero_group : Option ℕ → Bool
is_zero_group none = false
is_zero_group (some b) = b == 0

abbrev pub separator : Option ℕ → Text
separator none = []
separator (some b) = codes ":"

-- The loop over the groups: `before` is the group in front, where there is one. The result is the text and
-- whether `used_zeros` is set at the end.
unfoldable pub insert_groups : (before : Option ℕ) → (used_zeros : Bool) → List ℕ → Text × Bool
unfolding hex
insert_groups before used_zeros [] = ([], used_zeros)
insert_groups before used_zeros (g ∷ gs) =
    let skipped = insert_groups (some g) used_zeros gs in
    let after_zeros = is_zero_group before && not used_zeros in
    let (text, used) = insert_groups (some g) (used_zeros || after_zeros) gs in
    if (g == 0) && not used_zeros
    then skipped
    else ((if after_zeros then codes ":" else []) ++ (separator before ++ (hex g ++ text)), used)

abbrev pub last_is_zero : List ℕ → Bool
last_is_zero [] = false
last_is_zero (g ∷ []) = g == 0
last_is_zero (g ∷ h ∷ gs) = last_is_zero (h ∷ gs)

-- `IPv6Address::insert`.
unfoldable pub insert_ipv6 : (s6_addr : Text) → (port : ℕ) → Text
unfolding insert_groups
insert_ipv6 s6_addr port =
    let (text, used) = insert_groups none false (groups s6_addr) in
    codes "["
    ++ (text
        ++ ((if not used && last_is_zero (groups s6_addr) then codes "::" else [])
            ++ (codes "]:" ++ decimal port)))

-- `IPv4Address::insert`, on the address in the byte order of the host.
unfoldable pub insert_ipv4 : (addr port : ℕ) → Text
insert_ipv4 addr port =
    decimal (addr / 2 ^ 24 % 256)
    ++ (codes "."
        ++ (decimal (addr / 2 ^ 16 % 256)
            ++ (codes "."
                ++ (decimal (addr / 2 ^ 8 % 256)
                    ++ (codes "." ++ (decimal (addr % 256) ++ (codes ":" ++ decimal port)))))))
