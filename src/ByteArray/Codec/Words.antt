-- ===== src/ByteArray/Codec/Words.antt =====
-- The integer codecs of bytearray.cpp on lists of bytes.
use sylar_leo.Base.{
  ℕ, zero, suc, ◌+◌, ◌-◌, ◌*◌, ◌/◌, ◌%◌, ◌^◌, ◌≤◌, ◌<◌, ◌≡◌, refl, ◌∙◌, sym, ap, some, List, [],
  ◌∷◌, length, length-append, if◌then◌else◌, arith, dec_lt, ap₂, subst, All, All-append,
}
use sylar_leo.Base.Bits.{
  bit_and-one, bit_xor_ones, bit_xor-zero, bit_or_disjoint, bit_and_seven_ones,
}
use sylar_leo.ByteArray.{Endian, little, big}
use sylar_leo.ByteArray.Codec.{
  to_le, from_le, memory, value, byteswap, same_order, encode_zigzag, decode_zigzag, varint_bytes,
}
use mathlib.Core.List.{reverse, reverse-reverse, reverse-cons}
use native.Mathlib.Nat.{pow-suc, mod-lt, one-le-pow}
use Prim.Native.Nat.{bit_and, bit_or, bit_xor}

length-to_le : (w v : ℕ) → length (to_le w v) ≡ w
unfolding to_le
length-to_le zero v = refl
length-to_le (suc w) v = ap suc (length-to_le w (v / 256))

length-reverse : (xs : List ℕ) → length (reverse xs) ≡ length xs
length-reverse [] = refl
length-reverse (x ∷ xs) =
    rw reverse-cons (omega (arith, length-append (reverse xs) (x ∷ []), length-reverse xs))

pub length-memory : (host : Endian) (w v : ℕ) → length (memory host w v) ≡ w
unfolding memory
length-memory little w v = length-to_le w v
length-memory big w v = length-reverse (to_le w v) ∙ length-to_le w v

from_le-to_le : (w v : ℕ) → v < 256 ^ w → from_le (to_le w v) ≡ v
unfolding from_le to_le
from_le-to_le zero v h = omega arith
from_le-to_le (suc w) v h = omega (arith, from_le-to_le w (v / 256) (omega (arith, pow-suc 256 w)))

abbrev pub AreBytes : List ℕ → Type 0
AreBytes = All (λ x. x < 256)

to_le-AreBytes : (w v : ℕ) → AreBytes (to_le w v)
unfolding to_le
to_le-AreBytes zero v = tt
to_le-AreBytes (suc w) v = (omega arith, to_le-AreBytes w (v / 256))

reverse-AreBytes : (xs : List ℕ) → AreBytes xs → AreBytes (reverse xs)
reverse-AreBytes [] h = tt
reverse-AreBytes (x ∷ xs) h =
    rw reverse-cons (All-append _ (reverse xs) (x ∷ []) (reverse-AreBytes xs h.1) (h.0, tt))

to_le-from_le : (xs : List ℕ) → AreBytes xs → to_le (length xs) (from_le xs) ≡ xs
unfolding from_le to_le
to_le-from_le [] h = refl
to_le-from_le (x ∷ xs) h =
    let first : (x + 256 * from_le xs) % 256 ≡ x = omega (arith, h.0) in
    let others : (x + 256 * from_le xs) / 256 ≡ from_le xs = omega (arith, h.0) in
    ap₂ (λ y ys. y ∷ ys) first (ap (to_le (length xs)) others ∙ to_le-from_le xs h.1)

from_le_lt : (xs : List ℕ) → AreBytes xs → from_le xs < 256 ^ length xs
unfolding from_le
from_le_lt [] h = omega arith
from_le_lt (x ∷ xs) h = omega (arith, h.0, from_le_lt xs h.1, pow-suc 256 (length xs))

-- The bytes of a swapped value are the bytes in the other order.
to_le-byteswap : (w v : ℕ) → to_le w (byteswap w v) ≡ reverse (to_le w v)
unfolding byteswap
to_le-byteswap w v =
    ap (λ n. to_le n (from_le (reverse (to_le w v))))
      (sym (length-reverse (to_le w v) ∙ length-to_le w v))
    ∙ to_le-from_le (reverse (to_le w v)) (reverse-AreBytes (to_le w v) (to_le-AreBytes w v))

byteswap_lt : (w v : ℕ) → byteswap w v < 256 ^ w
unfolding byteswap
byteswap_lt w v =
    subst (λ n. from_le (reverse (to_le w v)) < 256 ^ n)
      (length-reverse (to_le w v) ∙ length-to_le w v)
      (from_le_lt (reverse (to_le w v)) (reverse-AreBytes (to_le w v) (to_le-AreBytes w v)))

byteswap-byteswap : (w v : ℕ) → v < 256 ^ w → byteswap w (byteswap w v) ≡ v
byteswap-byteswap w v h =
    swapped
    ∙ ap from_le (ap reverse (to_le-byteswap w v) ∙ reverse-reverse (to_le w v))
    ∙ from_le-to_le w v h
  where
    swapped : byteswap w (byteswap w v) ≡ from_le (reverse (to_le w (byteswap w v)))
    swapped = unfold byteswap in refl

-- What a host stores of a value it reads back.
value-memory : (host : Endian) (w v : ℕ) → v < 256 ^ w → value host (memory host w v) ≡ v
unfolding value memory
value-memory little w v h = from_le-to_le w v h
value-memory big w v h = rw reverse-reverse (from_le-to_le w v h)

-- The bytes of a value in the order of the stream.
abbrev pub ordered : Endian → ℕ → ℕ → List ℕ
ordered little w v = to_le w v
ordered big w v = reverse (to_le w v)

-- What `writeFint16` to `writeFuint64` hand to `write` depends on the stream's order alone.
pub memory-ordered :
    (endian host : Endian) (w v : ℕ)
    → memory host w (if same_order endian host then v else byteswap w v) ≡ ordered endian w v
unfolding memory same_order
memory-ordered little little w v = refl
memory-ordered little big w v = ap reverse (to_le-byteswap w v) ∙ reverse-reverse (to_le w v)
memory-ordered big little w v = to_le-byteswap w v
memory-ordered big big w v = refl

pub length-ordered : (endian : Endian) (w v : ℕ) → length (ordered endian w v) ≡ w
length-ordered little w v = length-to_le w v
length-ordered big w v = length-reverse (to_le w v) ∙ length-to_le w v

-- And the reads take the value back out of those bytes.
pub value-ordered :
    (endian host : Endian) (w v : ℕ)
    → v < 256 ^ w
    → (if same_order endian host
        then value host (ordered endian w v)
        else byteswap w (value host (ordered endian w v)))
      ≡ v
unfolding same_order to_le memory value byteswap
value-ordered little little w v h = value-memory little w v h
value-ordered little big w v h = byteswap-byteswap w v h
value-ordered big little w v h = byteswap-byteswap w v h
value-ordered big big w v h = value-memory big w v h

-- A value of 32 or of 64 bits comes back from its zigzag form.
pub decode_zigzag-encode_zigzag_32 :
    (v : ℕ) → v < 2 ^ 32 → decode_zigzag 32 (encode_zigzag 32 v) ≡ v
unfolding decode_zigzag encode_zigzag
decode_zigzag-encode_zigzag_32 v h = elim (dec_lt v (2 ^ 31)) [
  | yes below ↦
      let e : encode_zigzag 32 v ≡ 2 * v = ground arith in
      let half : 2 * v / 2 ≡ v = omega arith in
      let mask : (2 ^ 32 - bit_and (2 * v) 1) % 2 ^ 32 ≡ 0 = omega (arith, bit_and-one (2 * v)) in
      ap (decode_zigzag 32) e ∙ ap₂ bit_xor half mask ∙ bit_xor-zero v
  | no above ↦
      let e : encode_zigzag 32 v ≡ 2 * (2 ^ 32 - v) - 1 = ground arith in
      let half : (2 * (2 ^ 32 - v) - 1) / 2 ≡ 2 ^ 32 - v - 1 = omega arith in
      let mask : (2 ^ 32 - bit_and (2 * (2 ^ 32 - v) - 1) 1) % 2 ^ 32 ≡ 2 ^ 32 - 1 =
        omega (arith, bit_and-one (2 * (2 ^ 32 - v) - 1)) in
      ap (decode_zigzag 32) e
      ∙ ap₂ bit_xor half mask
      ∙ bit_xor_ones 32 (2 ^ 32 - v - 1) (omega arith)
      ∙ omega arith
]

pub decode_zigzag-encode_zigzag_64 :
    (v : ℕ) → v < 2 ^ 64 → decode_zigzag 64 (encode_zigzag 64 v) ≡ v
unfolding decode_zigzag encode_zigzag
decode_zigzag-encode_zigzag_64 v h = elim (dec_lt v (2 ^ 63)) [
  | yes below ↦
      let e : encode_zigzag 64 v ≡ 2 * v = ground arith in
      let half : 2 * v / 2 ≡ v = omega arith in
      let mask : (2 ^ 64 - bit_and (2 * v) 1) % 2 ^ 64 ≡ 0 = omega (arith, bit_and-one (2 * v)) in
      ap (decode_zigzag 64) e ∙ ap₂ bit_xor half mask ∙ bit_xor-zero v
  | no above ↦
      let e : encode_zigzag 64 v ≡ 2 * (2 ^ 64 - v) - 1 = ground arith in
      let half : (2 * (2 ^ 64 - v) - 1) / 2 ≡ 2 ^ 64 - v - 1 = omega arith in
      let mask : (2 ^ 64 - bit_and (2 * (2 ^ 64 - v) - 1) 1) % 2 ^ 64 ≡ 2 ^ 64 - 1 =
        omega (arith, bit_and-one (2 * (2 ^ 64 - v) - 1)) in
      ap (decode_zigzag 64) e
      ∙ ap₂ bit_xor half mask
      ∙ bit_xor_ones 64 (2 ^ 64 - v - 1) (omega arith)
      ∙ omega arith
]

pub encode_zigzag_lt : (bits v : ℕ) → encode_zigzag bits v < 2 ^ bits
unfolding encode_zigzag
encode_zigzag_lt bits v = ground (
  arith,
  mod-lt ((2 ^ bits - v) % 2 ^ bits * 2 + 2 ^ bits - 1) (one-le-pow bits 2 (omega arith)),
  mod-lt (v * 2) (one-le-pow bits 2 (omega arith)),
)

-- One byte of the variable length form: seven bits of the value under a set top bit.
pub continued : (v : ℕ) → bit_or (bit_and v 0x7f) 0x80 ≡ v % 128 + 128
continued v = rw bit_and_seven_ones (bit_or_disjoint 7 1 (v % 128) (omega arith))

-- A value of `room` groups of seven bits fits `room` bytes, and has one byte at least.
pub varint_bytes_total :
    (room v : ℕ)
    → v < 128 ^ suc room
    → (bytes : List ℕ) × (varint_bytes (suc room) v ≡ some bytes)
      × (0 < length bytes)
      × (length bytes ≤ suc room)
unfolding varint_bytes
varint_bytes_total zero v h = (v ∷ [], ground arith, omega arith, omega arith)
varint_bytes_total (suc room) v h = elim (dec_lt v 128) [
  | yes last ↦ (v ∷ [], ground arith, omega arith, omega arith)
  | no more ↦
      let (bytes, e, lo, hi) =
        varint_bytes_total room (v / 128) (omega (arith, pow-suc 128 (suc room))) in
      (bit_or (bit_and v 0x7f) 0x80 ∷ bytes, ground (arith, e), omega arith, omega arith)
]
