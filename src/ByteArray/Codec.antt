-- ===== src/ByteArray/Codec.antt =====
-- sylar/bytearray.cpp and sylar/endian.h: integers of fixed and of variable length, and strings.
-- A value of a signed type is given by its bit pattern, a number below 2 ^ width.
pub mod Words
pub mod Stream
pub mod Replay
pub mod Varint
pub mod Strings
mod Examples
use sylar_leo.Base.{
  ℕ, zero, suc, ◌+◌, ◌-◌, ◌*◌, ◌/◌, ◌%◌, ◌^◌, Bool, true, false, Option, none, some, List, [], ◌∷◌,
  ◌++◌, ltb, leb, if◌then◌else◌, length,
}
use sylar_leo.ByteArray.{
  ByteArray, Endian, little, big, Outcome, ok, undefined, M, ◌>>=◌, ◌>>◌, write, read,
}
use Prim.Native.Nat.{bit_and, bit_or, bit_xor}
use mathlib.Core.List.{reverse}
use mathlib.Core.Option

-- The bytes of a value of `width` bytes, lowest first, and the value of such bytes.
pub to_le : ℕ → ℕ → List ℕ
to_le zero v = []
to_le (suc width) v = (v % 256) ∷ to_le width (v / 256)

pub from_le : List ℕ → ℕ
from_le [] = 0
from_le (x ∷ xs) = x + 256 * from_le xs

-- The memory of a value on a host, and the value of such memory.
pub memory : Endian → ℕ → ℕ → List ℕ
memory little width v = to_le width v
memory big width v = reverse (to_le width v)

pub value : Endian → List ℕ → ℕ
value little bytes = from_le bytes
value big bytes = from_le (reverse bytes)

-- bswap_16, bswap_32 and bswap_64.
pub byteswap : ℕ → ℕ → ℕ
byteswap width v = from_le (reverse (to_le width v))

pub same_order : Endian → Endian → Bool
same_order little little = true
same_order little big = false
same_order big little = false
same_order big big = true

-- `writeFint8`, `writeFuint8`: no byte order.
pub write_fuint8 : ℕ → M (Unit {0})
write_fuint8 v = write ((v % 256) ∷ [])

pub read_fuint8 : M ℕ
read_fuint8 = do bytes ← read 1; ok (from_le bytes)

-- `writeFint16` to `writeFuint64`, at a width of 2, 4 or 8 bytes, and the reads of those.
pub write_fixed : ℕ → ℕ → M (Unit {0})
write_fixed width v b =
    write (memory b.host width (if same_order b.endian b.host then v else byteswap width v)) b

pub from_memory : ℕ → List ℕ → M ℕ
from_memory width bytes b =
    ok
      (if same_order b.endian b.host
        then value b.host bytes
        else byteswap width (value b.host bytes))
      b

pub read_fixed : ℕ → M ℕ
unfolding from_memory
read_fixed width = do bytes ← read width; from_memory width bytes

-- EncodeZigzag32 and EncodeZigzag64, with the arithmetic of the signed type wrapping as that of the
-- unsigned type does.
pub encode_zigzag : ℕ → ℕ → ℕ
encode_zigzag bits v =
    if leb (2 ^ (bits - 1)) v
    then ((2 ^ bits - v) % 2 ^ bits * 2 + 2 ^ bits - 1) % 2 ^ bits
    else v * 2 % 2 ^ bits

-- (v >> 1) ^ -(v & 1)
pub decode_zigzag : ℕ → ℕ → ℕ
decode_zigzag bits v = bit_xor (v / 2) ((2 ^ bits - bit_and v 1) % 2 ^ bits)

-- The loop of `writeUint32` and `writeUint64`: `room` is what is left of `tmp`, 5 or 10 bytes, and
-- `none` is a write behind it.
pub varint_bytes : ℕ → ℕ → Option (List ℕ)
varint_bytes zero v = none
varint_bytes (suc room) v =
    let rest =
      Option.map {B = List ℕ} (λ bytes. bit_or (bit_and v 0x7f) 0x80 ∷ bytes)
        (varint_bytes room (v / 2 ^ 7)) in
    if leb 0x80 v then rest else some (v ∷ [])

pub write_varint : ℕ → ℕ → M (Unit {0})
write_varint room v b = elim (varint_bytes room v) [ none ↦ undefined | some bytes ↦ write bytes b ]

pub write_uint32 : ℕ → M (Unit {0})
unfolding write_varint
write_uint32 v = write_varint 5 v

pub write_uint64 : ℕ → M (Unit {0})
unfolding write_varint
write_uint64 v = write_varint 10 v

pub write_int32 : ℕ → M (Unit {0})
unfolding write_uint32
write_int32 v = write_uint32 (encode_zigzag 32 v)

pub write_int64 : ℕ → M (Unit {0})
unfolding write_uint64
write_int64 v = write_uint64 (encode_zigzag 64 v)

-- The loop of `readUint32` and `readUint64`: `rounds` more values of `i` are below `bits`.
pub read_varint : ℕ → ℕ → ℕ → ℕ → M ℕ
read_varint bits zero i result b = ok result b
read_varint bits (suc rounds) i result b = elim (read_fuint8 b) [
  | ok byte b' ↦
      let more =
        read_varint bits rounds (i + 7) (bit_or result (bit_and byte 0x7f * 2 ^ i % 2 ^ bits)) b' in
      if ltb byte 0x80 then ok (bit_or result (byte * 2 ^ i % 2 ^ bits)) b' else more
  | Outcome.out_of_range b' ↦ Outcome.out_of_range b'
  | undefined ↦ undefined
]

pub read_uint32 : M ℕ
read_uint32 = read_varint 32 5 0 0

pub read_uint64 : M ℕ
read_uint64 = read_varint 64 10 0 0

pub read_int32 : M ℕ
read_int32 = do v ← read_uint32; ok (decode_zigzag 32 v)

pub read_int64 : M ℕ
read_int64 = do v ← read_uint64; ok (decode_zigzag 64 v)

-- `writeStringF16`, `writeStringF32`, `writeStringF64`, by the width of the length that stands in front.
pub write_string_fixed : ℕ → List ℕ → M (Unit {0})
write_string_fixed width s = do write_fixed width (length s % 256 ^ width); write s

pub write_string_vint : List ℕ → M (Unit {0})
write_string_vint s = do write_uint64 (length s % 2 ^ 64); write s

pub write_string_without_length : List ℕ → M (Unit {0})
write_string_without_length s = write s

pub read_string_fixed : ℕ → M (List ℕ)
read_string_fixed width = do len ← read_fixed width; read len

pub read_string_vint : M (List ℕ)
read_string_vint = do len ← read_uint64; read len
