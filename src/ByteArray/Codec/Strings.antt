-- ===== src/ByteArray/Codec/Strings.antt =====
-- The strings: `writeStringF16`, `writeStringF32`, `writeStringF64`, `writeStringVint` and their reads.
use sylar_leo.Base.{
  ℕ, ◌+◌, ◌%◌, ◌^◌, ◌≤◌, ◌<◌, ◌≡◌, refl, ◌∙◌, List, ◌++◌, length, append_assoc, arith,
}
use sylar_leo.ByteArray.{ByteArray, undefined, M, ◌>>=◌, ◌>>◌, bind_ok, write, read}
use sylar_leo.ByteArray.Validity.{IsValid, unread}
use sylar_leo.ByteArray.Reading.{read_nothing_at_end}
use sylar_leo.ByteArray.Writing.{write_lem}
use sylar_leo.ByteArray.Codec.{
  write_fixed, read_fixed, write_uint64, read_uint64, write_string_fixed, read_string_fixed,
  write_string_vint, read_string_vint,
}
use sylar_leo.ByteArray.Codec.Words.{ordered, length-ordered}
use sylar_leo.ByteArray.Codec.Stream.{read_front, Read-trans, Written-trans}
use sylar_leo.ByteArray.Codec.Replay.{
  Puts, Takes, Replayed, replay_lem, write_fixed-Puts, read_fixed-Takes,
}
use sylar_leo.ByteArray.Codec.Varint.{varint_front}
use native.Mathlib.Nat.{mod-eq_of_lt, one-le-pow}

-- A length and the bytes behind it, for any way to write and read the length.
Puts-string :
    (w : M (Unit {0})) (front s : List ℕ) (b : ByteArray)
    → IsValid b
    → Puts w front b
    → Puts (w >> write s) (front ++ s) b
Puts-string w front s b v (c, e, wr) =
    let (d, f, ws) = write_lem s c wr.valid in
    (d, bind_ok w (λ _. write s) b e ∙ f, Written-trans front s b c d v wr ws)

Takes-string :
    (r : M ℕ) (front s : List ℕ) (c : ByteArray) (rest : List ℕ)
    → 0 < length s
    → unread c ≡ (front ++ s) ++ rest
    → (unread c ≡ front ++ (s ++ rest) → Takes r front (length s) c (s ++ rest))
    → Takes (r >>= read) (front ++ s) s c rest
Takes-string r front s c rest ne e length_read =
    let (d, run, rd, left) = length_read (e ∙ append_assoc front s rest) in
    let (d', run', rd', left') = read_front s rest d rd.valid left ne in
    (d', bind_ok r read c run ∙ run', Read-trans front s c d d' rd rd', left')

-- `writeStringF16`, `writeStringF32`, `writeStringF64` and their reads on a valid ByteArray: a string
-- that is not empty, and whose length the field in front can hold, comes back, from that field and its
-- bytes, which stand at the position.
pub read_string_fixed-write_string_fixed :
    (w : ℕ) (s : List ℕ) (b : ByteArray)
    → 0 < w
    → 0 < length s
    → length s < 256 ^ w
    → IsValid b
    → Replayed
        (write_string_fixed w s)
        (read_string_fixed w)
        (ordered b.endian w (length s) ++ s)
        s
        b
unfolding write_string_fixed read_string_fixed
read_string_fixed-write_string_fixed w s b pos ne h valid =
    replay_lem (write_string_fixed w s) (read_string_fixed w) (ordered b.endian w (length s) ++ s) s
      b valid
      (Puts-string (write_fixed w (length s % 256 ^ w)) (ordered b.endian w (length s)) s b valid
        (rw (mod-eq_of_lt h) (write_fixed-Puts w (length s) b valid)))
      (λ c rest vc _ same front.
        Takes-string (read_fixed w) (ordered b.endian w (length s)) s c rest ne front
          (λ front'. read_fixed-Takes b.endian w (length s) c (s ++ rest) pos h vc same front'))

-- `writeStringVint` and `readStringVint` on a valid ByteArray: a string that is not empty, and whose
-- length is below 2 ^ 64, comes back, from at most 10 bytes for its length and its own bytes, which
-- stand at the position.
pub read_string_vint-write_string_vint :
    (s : List ℕ) (b : ByteArray)
    → 0 < length s
    → length s < 2 ^ 64
    → IsValid b
    → (front : List ℕ) × (length front ≤ 10)
      × Replayed (write_string_vint s) read_string_vint (front ++ s) s b
unfolding write_string_vint read_string_vint write_uint64 read_uint64
read_string_vint-write_string_vint s b ne h valid =
    let (front, most, puts, takes) = varint_front 64 9 (length s) h (omega arith) in
    (
      front,
      most,
      replay_lem (write_string_vint s) read_string_vint (front ++ s) s b valid
          (Puts-string (write_uint64 (length s % 2 ^ 64)) front s b valid
            (rw (mod-eq_of_lt h) (puts b valid)))
          (λ c rest vc _ _ e.
            Takes-string read_uint64 front s c rest ne e (λ e'. takes c (s ++ rest) vc e')),
    )

-- Where a valid ByteArray holds the length of an empty string at the position, in the last bytes of the
-- last block, `readStringF16` and its kin have undefined behaviour: they read the size of a block
-- through the null pointer.
pub read_string_fixed_empty_at_end :
    (w : ℕ) (b : ByteArray) (rest : List ℕ)
    → 0 < w
    → IsValid b
    → unread b ≡ ordered b.endian w 0 ++ rest
    → b.position + w ≡ b.capacity
    → read_string_fixed w b ≡ undefined
unfolding read_string_fixed
read_string_fixed_empty_at_end w b rest pos valid front full =
    let (c, run, rd, _) =
      read_fixed-Takes b.endian w 0 b rest pos (one-le-pow w 256 (omega arith)) valid refl front in
    bind_ok (read_fixed w) read b run
    ∙ read_nothing_at_end c rd.valid
        (omega (arith, rd.position, rd.same_capacity, length-ordered b.endian w 0))
