-- ===== src/ByteArray/Examples.antt =====
-- Runs of the raw operations of a ByteArray on a small one.
use sylar_leo.Base.{◌≡◌, refl, some, [], ◌∷◌, take, arith}
use sylar_leo.ByteArray.{ByteArray, little, big, ok, write, read, read_at, read_loop, to_string}
use sylar_leo.ByteArray.Validity.{IsValid, Written, unread}
use sylar_leo.ByteArray.Writing.{write_lem}
use sylar_leo.ByteArray.Buffers.{buffers_loop, get_read_buffers}
use sylar_leo.ByteArray.Reading.{Read, read_lem}

-- Six bytes in two blocks of four, at position 1.
abbrev filled : ByteArray
filled = record {
  base_size = 4;
  position = 1;
  capacity = 8;
  size = 6;
  endian = big;
  chain = (1 ∷ 2 ∷ 3 ∷ 4 ∷ []) ∷ (5 ∷ 6 ∷ 0 ∷ 0 ∷ []) ∷ [];
  cur = some 0;
  host = little;
  junk = 0;
}

filled-IsValid : IsValid filled
filled-IsValid = record {
  base_pos = omega arith;
  sized = (refl, (refl, tt));
  room = refl;
  rooted = omega arith;
  position_le = omega arith;
  size_le = omega arith;
  at_cur = refl;
}

-- The bytes from position 1 on.
to_string_test : to_string filled ≡ ok (2 ∷ 3 ∷ 4 ∷ 5 ∷ 6 ∷ []) filled
unfolding to_string read_at read_loop
to_string_test = refl

write_lem_example :
    (b' : ByteArray) × (write (7 ∷ 8 ∷ 9 ∷ 10 ∷ []) filled ≡ ok tt b')
    × Written (7 ∷ 8 ∷ 9 ∷ 10 ∷ []) filled b'
write_lem_example = write_lem (7 ∷ 8 ∷ 9 ∷ 10 ∷ []) filled filled-IsValid

read_lem_example :
    (b' : ByteArray) × (read 4 filled ≡ ok (take 4 (unread filled)) b')
    × Read (take 4 (unread filled)) filled b'
read_lem_example = read_lem 4 filled filled-IsValid (omega arith) (omega arith)

-- Asked for more than there is: two buffers, for all five bytes.
get_read_buffers_test :
    get_read_buffers 9 filled
    ≡ some
        (record { block = 0; offset = 1; len = 3 } ∷ record { block = 1; offset = 0; len = 2 } ∷ [])
unfolding get_read_buffers buffers_loop
get_read_buffers_test = refl
