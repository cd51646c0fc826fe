-- ===== src/ByteArray/Codec/Replay.antt =====
-- Integers of fixed width: a write, `setPosition` back, and the read of the same width.
use sylar_leo.Base.{ℕ, ◌+◌, ◌^◌, ◌<◌, ◌≡◌, ◌∙◌, ap, subst, List, [], ◌∷◌, ◌++◌, length, arith}
use sylar_leo.ByteArray.{ByteArray, Endian, ok, M, ◌>>◌, bind_ok, overwrite, read, set_position}
use sylar_leo.ByteArray.Validity.{IsValid, contents, unread, Written}
use sylar_leo.ByteArray.Reading.{Read}
use sylar_leo.ByteArray.Writing.{write_lem}
use sylar_leo.ByteArray.Codec.{write_fixed, read_fixed, from_memory, from_le, read_fuint8}
use sylar_leo.ByteArray.Codec.Words.{ordered, memory-ordered, length-ordered, value-ordered}
use sylar_leo.ByteArray.Codec.Stream.{replay, read_front, rewind}

-- A write that puts `xs` at the position, and a read that finds `xs` at the front of the stream,
-- returns `a` and takes them.
abbrev pub Puts : M (Unit {0}) → List ℕ → ByteArray → Type 0
Puts w xs b = (b' : ByteArray) × (w b ≡ ok tt b') × Written xs b b'

abbrev pub Takes : {A : Type 0} → M A → List ℕ → A → ByteArray → List ℕ → Type 0
Takes r xs a b rest = (b' : ByteArray) × (r b ≡ ok a b') × Read xs b b' × (unread b' ≡ rest)

-- The outcome of a replay: the value, the position behind it, and the bytes in their place.
abbrev pub Replayed : {A : Type 0} → M (Unit {0}) → M A → List ℕ → A → ByteArray → Type 0
Replayed w r buf a b =
    (b' : ByteArray) × (replay w r b ≡ ok a b')
    × IsValid b'
    × (b'.position ≡ b.position + length buf)
    × (contents b' ≡ overwrite b.position buf (contents b))

pub replay_lem :
    {A : Type 0} (w : M (Unit {0})) (r : M A) (buf : List ℕ) (a : A) (b : ByteArray)
    → IsValid b
    → Puts w buf b
    → ((c : ByteArray) (rest : List ℕ)
        → IsValid c
        → c.host ≡ b.host
        → c.endian ≡ b.endian
        → unread c ≡ buf ++ rest
        → Takes r buf a c rest)
    → Replayed w r buf a b
replay_lem w r buf a b v (c, e, wr) reads =
    let (d, f, m) = rewind buf b c v wr in
    let (b', g, rd, _) = reads d _ m.valid m.same_host m.same_endian m.unread_lem in
    (
      b',
      bind_ok w (λ _. set_position b.position >> r) b e
          ∙ bind_ok (set_position b.position) (λ _. r) c f
          ∙ g,
      rd.valid,
      rd.position ∙ ap (λ t. t + length buf) m.position,
      rd.same_contents ∙ m.contents_lem,
    )

-- Integers of fixed width.
pub write_fixed-Puts :
    (w v : ℕ) (b : ByteArray) → IsValid b → Puts (write_fixed w v) (ordered b.endian w v) b
unfolding write_fixed
write_fixed-Puts w v b h =
    rw (memory-ordered b.endian b.host w v) (write_lem (ordered b.endian w v) b h)

pub read_fixed-Takes :
    (e : Endian) (w v : ℕ) (c : ByteArray) (rest : List ℕ)
    → 0 < w
    → v < 256 ^ w
    → IsValid c
    → c.endian ≡ e
    → unread c ≡ ordered e w v ++ rest
    → Takes (read_fixed w) (ordered e w v) v c rest
unfolding read_fixed from_memory
read_fixed-Takes e w v c rest pos h valid same front =
    let (c', run, rd, left) =
      read_front (ordered e w v) rest c valid front (omega (arith, length-ordered e w v)) in
    let run' = subst (λ n. read n c ≡ ok (ordered e w v) c') (length-ordered e w v) run in
    (
      c',
      bind_ok (read w) (from_memory w) c run'
          ∙ ap (λ x. ok x c')
              (rw (rd.same_endian, rd.same_host, same) (value-ordered e c.host w v h)),
      rd,
      left,
    )

-- `writeFint16` to `writeFuint64` and their reads, on a valid ByteArray: at either byte order of the
-- stream and of the host, a value of `w` bytes is written in the order of the stream and read back, at
-- the position behind it.
pub read_fixed-write_fixed :
    (w v : ℕ) (b : ByteArray)
    → 0 < w
    → v < 256 ^ w
    → IsValid b
    → Replayed (write_fixed w v) (read_fixed w) (ordered b.endian w v) v b
read_fixed-write_fixed w v b pos h valid =
    replay_lem (write_fixed w v) (read_fixed w) (ordered b.endian w v) v b valid
      (write_fixed-Puts w v b valid)
      (λ c rest vc _ same front. read_fixed-Takes b.endian w v c rest pos h vc same front)

pub read_fuint8_front :
    (x : ℕ) (rest : List ℕ) (c : ByteArray)
    → IsValid c
    → unread c ≡ x ∷ rest
    → Takes read_fuint8 (x ∷ []) x c rest
unfolding read_fuint8 from_le
read_fuint8_front x rest c valid front =
    let (c', run, rd, left) = read_front (x ∷ []) rest c valid front (omega arith) in
    (
      c',
      bind_ok (read 1) (λ bytes. ok (from_le bytes)) c run ∙ ap (λ y. ok y c') (omega arith),
      rd,
      left,
    )
