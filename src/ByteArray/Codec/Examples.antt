-- ===== src/ByteArray/Codec/Examples.antt =====
-- Integers and strings on a new ByteArray of blocks of four bytes.
use sylar_leo.Base.{◌≡◌, ◌≤◌, refl, some, List, [], ◌∷◌, length, arith, ℕ}
use sylar_leo.ByteArray.{ByteArray, little, big, new_byte_array}
use sylar_leo.ByteArray.Validity.{IsValid, new_byte_array-IsValid}
use sylar_leo.ByteArray.Codec.{write_uint64, read_uint64, encode_zigzag, varint_bytes}
use sylar_leo.ByteArray.Codec.Replay.{Replayed}
use sylar_leo.ByteArray.Codec.Varint.{read_uint64-write_uint64}

abbrev fresh : ByteArray
fresh = new_byte_array little 0 4

fresh-IsValid : IsValid fresh
fresh-IsValid = new_byte_array-IsValid little 0 4 (omega arith)

-- 300 is 0b10_0101100.
varint_test : varint_bytes 5 300 ≡ some (172 ∷ 2 ∷ [])
unfolding varint_bytes
varint_test = refl

-- -2 is encoded as 3.
zigzag_test : encode_zigzag 32 4294967294 ≡ 3
unfolding encode_zigzag
zigzag_test = refl

read_uint64-write_uint64_example :
    (bytes : List ℕ) × (length bytes ≤ 10) × Replayed (write_uint64 300) read_uint64 bytes 300 fresh
read_uint64-write_uint64_example = read_uint64-write_uint64 300 fresh (omega arith) fresh-IsValid

-- An empty string is all that is left, up to the end of the only block.
abbrev at_end : ByteArray
at_end = record {
  base_size = 4;
  position = 2;
  capacity = 4;
  size = 4;
  endian = big;
  chain = (9 ∷ 9 ∷ 0 ∷ 0 ∷ []) ∷ [];
  cur = some 0;
  host = little;
  junk = 0;
}

at_end-IsValid : IsValid at_end
at_end-IsValid = record {
  base_pos = omega arith;
  sized = (refl, tt);
  room = refl;
  rooted = omega arith;
  position_le = omega arith;
  size_le = omega arith;
  at_cur = refl;
}
