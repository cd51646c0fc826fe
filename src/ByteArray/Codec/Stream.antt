-- ===== src/ByteArray/Codec/Stream.antt =====
-- Reading and writing seen as consuming and producing a stream of bytes.
use sylar_leo.Base.{
  ℕ, ◌+◌, ◌-◌, ◌<◌, ◌≡◌, ◌∙◌, sym, ap, ap₂, List, ◌++◌, length, ltb, if◌then◌else◌, length-append,
  length-drop, length-take, take, drop, drop-drop, take-append, drop-append, flatten, arith,
}
use sylar_leo.ByteArray.{ByteArray, ok, M, ◌>>◌, overwrite, read, set_position}
use sylar_leo.ByteArray.Chain.{length-flatten, drop-overwrite, overwrite-overwrite}
use sylar_leo.ByteArray.Validity.{IsValid, contents, unread, Written}
use sylar_leo.ByteArray.Reading.{Read, read_lem, set_position_lem}

pub length-contents : (b : ByteArray) → IsValid b → length (contents b) ≡ b.size
length-contents b v = omega (
  arith,
  length-take b.size (flatten b.chain),
  length-flatten b.base_size b.chain v.sized,
  v.room,
  v.size_le,
)

pub length-unread : (b : ByteArray) → IsValid b → length (unread b) ≡ b.size - b.position
length-unread b v = omega (arith, length-drop b.position (contents b), length-contents b v)

-- What is left of the stream behind the bytes that were read.
pub unread_after :
    (xs rest : List ℕ) (b b' : ByteArray) → unread b ≡ xs ++ rest → Read xs b b' → unread b' ≡ rest
unread_after xs rest b b' e r =
    ap₂ (λ p l. drop p l) r.position r.same_contents
    ∙ sym (drop-drop (length xs) b.position (contents b))
    ∙ ap (drop (length xs)) e
    ∙ drop-append xs rest

-- `read` takes the bytes that stand at the front of the stream.
pub read_front :
    (xs rest : List ℕ) (b : ByteArray)
    → IsValid b
    → unread b ≡ xs ++ rest
    → 0 < length xs
    → (b' : ByteArray) × (read (length xs) b ≡ ok xs b') × Read xs b b' × (unread b' ≡ rest)
read_front xs rest b v e ne =
    let (b', run, r) =
      read_lem (length xs) b v (omega (arith, sizes)) (omega (arith, sizes, v.size_le)) in
    let r' = rw taken at r in (b', rw taken at run, r', unread_after xs rest b b' e r')
  where
    sizes : b.size - b.position ≡ length xs + length rest
    sizes = sym (length-unread b v) ∙ ap length e ∙ length-append xs rest

    taken : take (length xs) (unread b) ≡ xs
    taken = ap (take (length xs)) e ∙ take-append xs rest

pub Read-trans :
    (xs ys : List ℕ) (b c d : ByteArray) → Read xs b c → Read ys c d → Read (xs ++ ys) b d
Read-trans xs ys b c d r s = record {
  valid = s.valid;
  position = omega (arith, r.position, s.position, length-append xs ys);
  same_contents = s.same_contents ∙ r.same_contents;
  same_size = s.same_size ∙ r.same_size;
  same_capacity = s.same_capacity ∙ r.same_capacity;
  same_endian = s.same_endian ∙ r.same_endian;
  same_host = s.same_host ∙ r.same_host;
}

pub Written-trans :
    (xs ys : List ℕ) (b c d : ByteArray)
    → IsValid b
    → Written xs b c
    → Written ys c d
    → Written (xs ++ ys) b d
Written-trans xs ys b c d v w z = record {
  valid = z.valid;
  position = omega (arith, w.position, z.position, length-append xs ys);
  contents_lem =
      z.contents_lem
      ∙ ap₂ (λ p l. overwrite p ys l) w.position w.contents_lem
      ∙ overwrite-overwrite b.position xs ys (contents b)
          (omega (arith, length-contents b v, v.position_le));
  same_endian = z.same_endian ∙ w.same_endian;
  same_host = z.same_host ∙ w.same_host;
}

-- A write, a return to where it began, and a read.
abbrev pub replay : {A : Type 0} → M (Unit {0}) → M A → M A
replay w r b = (w >> (set_position b.position >> r)) b

-- After the return the bytes written stand at the front of the stream.
pub record Rewound (buf : List ℕ) (b b' : ByteArray) : Type 0 where
  pub valid : IsValid b'
  pub position : b'.position ≡ b.position
  pub contents_lem : contents b' ≡ overwrite b.position buf (contents b)
  pub unread_lem : unread b' ≡ buf ++ drop (b.position + length buf) (contents b)
  pub same_endian : b'.endian ≡ b.endian
  pub same_host : b'.host ≡ b.host

pub rewind :
    (buf : List ℕ) (b b' : ByteArray)
    → IsValid b
    → Written buf b b'
    → (b'' : ByteArray) × (set_position b.position b' ≡ ok tt b'') × Rewound buf b b''
rewind buf b b' v w =
    let (b'', run, m) =
      set_position_lem b.position b' w.valid
        (omega (arith, w.position, w.valid.position_le, w.valid.size_le)) in
    let same : contents b'' ≡ overwrite b.position buf (contents b) =
      m.contents_lem ∙ ap (λ n. take n (flatten b'.chain)) small ∙ w.contents_lem in
    (
      b'',
      run,
      record {
        valid = m.valid;
        position = m.position;
        contents_lem = same;
        unread_lem =
            ap₂ (λ p l. drop p l) m.position same
            ∙ drop-overwrite b.position buf (contents b)
                (omega (arith, length-contents b v, v.position_le));
        same_endian = m.same_endian ∙ w.same_endian;
        same_host = m.same_host ∙ w.same_host;
      },
    )
  where
    small : (if ltb b'.size b.position then b.position else b'.size) ≡ b'.size
    small = ground (arith, w.position, w.valid.position_le)
