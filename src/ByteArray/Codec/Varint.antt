-- ===== src/ByteArray/Codec/Varint.antt =====
-- The integers of variable length: `writeUint32`, `writeInt32`, `writeUint64`, `writeInt64` and their reads.
use sylar_leo.Base.{
  ℕ, zero, suc, ◌+◌, ◌*◌, ◌/◌, ◌%◌, ◌^◌, ◌≤◌, ◌<◌, ◌≡◌, ◌∙◌, sym, ap, fun_ext, subst, some, List,
  [], ◌∷◌, ◌++◌, length, dec_lt, lt→ltb, le→ltb_false, Option-cases, inl, inr, arith,
}
use sylar_leo.Base.Bits.{bit_or_disjoint, bit_and_seven_ones}
use sylar_leo.ByteArray.{ByteArray, ok, M, ◌>>=◌, ◌>>◌, bind_ok, bind_assoc, set_position}
use sylar_leo.ByteArray.Validity.{IsValid, unread}
use sylar_leo.ByteArray.Reading.{Read}
use sylar_leo.ByteArray.Writing.{write_lem}
use sylar_leo.ByteArray.Codec.{
  read_fuint8, varint_bytes, read_varint, write_varint, write_uint32, read_uint32, write_uint64,
  read_uint64, write_int32, read_int32, write_int64, read_int64, encode_zigzag, decode_zigzag,
}
use sylar_leo.ByteArray.Codec.Words.{
  varint_bytes_total, continued, decode_zigzag-encode_zigzag_32, decode_zigzag-encode_zigzag_64,
  encode_zigzag_lt,
}
use sylar_leo.ByteArray.Codec.Stream.{replay, Read-trans}
use sylar_leo.ByteArray.Codec.Replay.{Puts, Takes, Replayed, replay_lem, read_fuint8_front}
use Prim.Native.Nat.{bit_or}
use native.Mathlib.Nat.{div-add-mod, mod-eq_of_lt}
use native.Mathlib.Numerals.{towards_suc}

pow_seven : (i : ℕ) → 2 ^ (i + 7) ≡ 128 * 2 ^ i
pow_seven i = simp towards_suc (omega arith)

mul_mono : (a b c : ℕ) → a ≤ b → a * c ≤ b * c
mul_mono a b c h = grind arith

-- One round of the loop, on a last byte and on one with the top bit set.
read_varint_last :
    (bits rounds i result byte : ℕ) (c c' : ByteArray)
    → read_fuint8 c ≡ ok byte c'
    → byte < 128
    → result < 2 ^ i
    → byte * 2 ^ i < 2 ^ bits
    → read_varint bits (suc rounds) i result c ≡ ok (result + byte * 2 ^ i) c'
unfolding read_varint
read_varint_last bits rounds i result byte c c' e small low fits =
    rw (e, read_varint, lt→ltb byte 128 small)
      (ap (λ t. ok (bit_or result t) c') (mod-eq_of_lt fits)
        ∙ ap (λ t. ok t c') (bit_or_disjoint i byte result low))

read_varint_more :
    (bits rounds i result v : ℕ) (c c' : ByteArray)
    → read_fuint8 c ≡ ok (v % 128 + 128) c'
    → result < 2 ^ i
    → v * 2 ^ i < 2 ^ bits
    → read_varint bits (suc rounds) i result c
      ≡ read_varint bits rounds (i + 7) (result + v % 128 * 2 ^ i) c'
unfolding read_varint
read_varint_more bits rounds i result v c c' e low fits =
    rw (e, read_varint, le→ltb_false (v % 128 + 128) 128 (omega arith))
      (ap (λ t. read_varint bits rounds (i + 7) t c')
        (ap (λ t. bit_or result (t * 2 ^ i % 2 ^ bits))
            (bit_and_seven_ones (v % 128 + 128) ∙ omega arith)
          ∙ ap (bit_or result) (mod-eq_of_lt below)
          ∙ bit_or_disjoint i (v % 128) result low))
  where
    below : v % 128 * 2 ^ i < 2 ^ bits
    below = grind (arith, mul_mono (v % 128) v (2 ^ i))

-- The lowest seven bits and the others, both shifted.
split_groups : (v i : ℕ) → v % 128 * 2 ^ i + v / 128 * 2 ^ (i + 7) ≡ v * 2 ^ i
split_groups v i = omega (
  arith,
  ap (λ (t : ℕ). t * 2 ^ i) (div-add-mod v 128),
  ap (λ (t : ℕ). v / 128 * t) (pow_seven i),
)

low_groups : (result v i : ℕ) → result < 2 ^ i → result + v % 128 * 2 ^ i < 2 ^ (i + 7)
low_groups result v i h = omega (arith, pow_seven i, mul_mono (v % 128) 127 (2 ^ i) (omega arith))

-- The bytes of a value above one group.
varint_bytes_more :
    (rounds v : ℕ) (bytes : List ℕ)
    → 128 ≤ v
    → varint_bytes (suc rounds) v ≡ some bytes
    → (tail : List ℕ) × (varint_bytes rounds (v / 128) ≡ some tail)
      × (bytes ≡ (v % 128 + 128) ∷ tail)
unfolding varint_bytes
varint_bytes_more rounds v bytes h e = elim (Option-cases (varint_bytes rounds (v / 128))) [
  | inl miss ↦ absurd (ground (arith, miss, e))
  | inr (tail, found) ↦ (tail, found, ground (arith, found, e, continued v))
]

-- The loop of `readUint32` and `readUint64` adds the value of the form, shifted by `i` bits.
pub read_varint-Takes :
    (bits rounds i result v : ℕ) (bytes : List ℕ) (c : ByteArray) (rest : List ℕ)
    → IsValid c
    → varint_bytes rounds v ≡ some bytes
    → unread c ≡ bytes ++ rest
    → result < 2 ^ i
    → result + v * 2 ^ i < 2 ^ bits
    → Takes (read_varint bits rounds i result) bytes (result + v * 2 ^ i) c rest
read_varint-Takes bits zero i result v bytes c rest valid e front low fits =
    unfold varint_bytes in cc
read_varint-Takes bits (suc rounds) i result v bytes c rest valid e front low fits =
    elim (dec_lt v 128) [
      | yes last ↦
          let single : bytes ≡ v ∷ [] = unfold varint_bytes in ground (arith, e) in
          let (c', run, rd, left) =
            read_fuint8_front v rest c valid (front ∙ ap (λ l. l ++ rest) single) in
          (
            c',
            read_varint_last bits rounds i result v c c' run last low (omega arith),
            subst (λ l. Read l c c') (sym single) rd,
            left,
          )
      | no more ↦
          let (tail, found, shape) = varint_bytes_more rounds v bytes (omega arith) e in
          let (c', run, rd, left) =
            read_fuint8_front (v % 128 + 128) (tail ++ rest) c valid
              (front ∙ ap (λ l. l ++ rest) shape) in
          let (c'', run', rd', left') =
            read_varint-Takes bits rounds (i + 7) (result + v % 128 * 2 ^ i) (v / 128) tail c' rest
              rd.valid found left (low_groups result v i low) (omega (arith, split_groups v i)) in
          (
            c'',
            read_varint_more bits rounds i result v c c' run low (omega arith)
                ∙ run'
                ∙ ap (λ t. ok t c'') (omega (arith, split_groups v i)),
            subst (λ l. Read l c c'') (sym shape)
                (Read-trans ((v % 128 + 128) ∷ []) tail c c' c'' rd rd'),
            left',
          )
    ]

-- The bytes of a value of at most `bits` bits that `suc room` groups of seven bits hold: what
-- `write_varint` puts into the stream and `read_varint` takes out.
abbrev pub VarintFront : ℕ → ℕ → ℕ → Type 0
VarintFront bits room v =
    (bytes : List ℕ) × (length bytes ≤ suc room)
    × ((b : ByteArray) → IsValid b → Puts (write_varint (suc room) v) bytes b)
    × ((c : ByteArray) (rest : List ℕ)
        → IsValid c
        → unread c ≡ bytes ++ rest
        → Takes (read_varint bits (suc room) 0 0) bytes v c rest)

pub varint_front : (bits room v : ℕ) → v < 2 ^ bits → v < 128 ^ suc room → VarintFront bits room v
unfolding write_varint
varint_front bits room v fits small =
    let (bytes, e, _, most) = varint_bytes_total room v small in
    (
      bytes,
      most,
      (λ b valid. rw (e, write_varint) (write_lem bytes b valid)),
      (λ c rest vc front.
          subst (λ n. Takes (read_varint bits (suc room) 0 0) bytes n c rest) (omega arith)
            (read_varint-Takes bits (suc room) 0 0 v bytes c rest vc e front (omega arith)
              (omega arith))),
    )

varint-Replayed :
    (bits room v : ℕ) (b : ByteArray)
    → IsValid b
    → VarintFront bits room v
    → (bytes : List ℕ) × (length bytes ≤ suc room)
      × Replayed (write_varint (suc room) v) (read_varint bits (suc room) 0 0) bytes v b
varint-Replayed bits room v b valid (bytes, most, puts, takes) = (
  bytes,
  most,
  replay_lem (write_varint (suc room) v) (read_varint bits (suc room) 0 0) bytes v b valid
      (puts b valid) (λ c rest vc _ _ front. takes c rest vc front),
)

-- `writeUint32` and `readUint32` on a valid ByteArray: every 32-bit value comes back, from at most 5
-- bytes that stand at the position.
pub read_uint32-write_uint32 :
    (v : ℕ) (b : ByteArray)
    → v < 2 ^ 32
    → IsValid b
    → (bytes : List ℕ) × (length bytes ≤ 5) × Replayed (write_uint32 v) read_uint32 bytes v b
unfolding write_uint32 read_uint32
read_uint32-write_uint32 v b h valid =
    varint-Replayed 32 4 v b valid (varint_front 32 4 v h (omega arith))

-- `writeUint64` and `readUint64` on a valid ByteArray: every 64-bit value comes back, from at most 10
-- bytes that stand at the position.
pub read_uint64-write_uint64 :
    (v : ℕ) (b : ByteArray)
    → v < 2 ^ 64
    → IsValid b
    → (bytes : List ℕ) × (length bytes ≤ 10) × Replayed (write_uint64 v) read_uint64 bytes v b
unfolding write_uint64 read_uint64
read_uint64-write_uint64 v b h valid =
    varint-Replayed 64 9 v b valid (varint_front 64 9 v h (omega arith))

-- A decoding behind the read.
Replayed-map :
    (w : M (Unit {0})) (r : M ℕ) (f : ℕ → ℕ) (bytes : List ℕ) (a a' : ℕ) (b : ByteArray)
    → f a ≡ a'
    → Replayed w r bytes a b
    → Replayed w (r >>= λ x. ok (f x)) bytes a' b
Replayed-map w r f bytes a a' b e (b', run, valid, moved, same) =
    let g : ℕ → M ℕ = λ x. ok (f x) in
    (
      b',
      ap (λ (k : Unit {0} → M ℕ). (w >>= k) b)
            (fun_ext λ _. fun_ext λ c. sym (bind_assoc (set_position b.position) (λ _. r) g c))
          ∙ sym (bind_assoc w (λ _. set_position b.position >> r) g b)
          ∙ bind_ok (replay w r) g b run
          ∙ ap (λ x. ok x b') e,
      valid,
      moved,
      same,
    )

-- `writeInt32` and `readInt32` on a valid ByteArray: the bit pattern of every signed 32-bit value comes
-- back, from at most 5 bytes that stand at the position.
pub read_int32-write_int32 :
    (v : ℕ) (b : ByteArray)
    → v < 2 ^ 32
    → IsValid b
    → (bytes : List ℕ) × (length bytes ≤ 5) × Replayed (write_int32 v) read_int32 bytes v b
unfolding write_int32 read_int32
read_int32-write_int32 v b h valid =
    let (bytes, most, r) =
      read_uint32-write_uint32 (encode_zigzag 32 v) b (encode_zigzag_lt 32 v) valid in
    (
      bytes,
      most,
      Replayed-map (write_uint32 (encode_zigzag 32 v)) read_uint32 (decode_zigzag 32) bytes
          (encode_zigzag 32 v) v b (decode_zigzag-encode_zigzag_32 v h) r,
    )

-- `writeInt64` and `readInt64` on a valid ByteArray: the bit pattern of every signed 64-bit value comes
-- back, from at most 10 bytes that stand at the position.
pub read_int64-write_int64 :
    (v : ℕ) (b : ByteArray)
    → v < 2 ^ 64
    → IsValid b
    → (bytes : List ℕ) × (length bytes ≤ 10) × Replayed (write_int64 v) read_int64 bytes v b
unfolding write_int64 read_int64
read_int64-write_int64 v b h valid =
    let (bytes, most, r) =
      read_uint64-write_uint64 (encode_zigzag 64 v) b (encode_zigzag_lt 64 v) valid in
    (
      bytes,
      most,
      Replayed-map (write_uint64 (encode_zigzag 64 v)) read_uint64 (decode_zigzag 64) bytes
          (encode_zigzag 64 v) v b (decode_zigzag-encode_zigzag_64 v h) r,
    )
