-- ===== src/ByteArray/Reading.antt =====
-- The two `read`s, `setPosition`, `clear` and `toString` against the bytes that a ByteArray holds.
use sylar_leo.Base.{
  ℕ, ◌+◌, ◌-◌, ◌*◌, ◌/◌, ◌%◌, ◌^◌, ◌≤◌, ◌<◌, ◌≡◌, refl, ◌∙◌, sym, ap, ap₂, some, List, [], ltb,
  ◌==◌, if◌then◌else◌, length, take, drop, flatten, length-take, length-drop, take-append_le,
  drop_all, flatten-append, drop-append_le, drop-append_add, All-take, All-drop, take-append-drop,
  le→ltb_false, lt→ltb, take_all, dec_lt, false, arith,
}
use sylar_leo.ByteArray.{
  ByteArray, ok, out_of_range, undefined, get_read_size, read, read_from, read_at, read_at_from,
  set_position, clear, to_string, after_read, advance, read_loop,
}
use sylar_leo.ByteArray.Chain.{AllSized, length-flatten, Copied, read_loop_total, seek_total}
use sylar_leo.ByteArray.Validity.{
  IsValid, contents, unread, block_at, advance-block_at, advance_start,
}
use sylar_leo.ByteArray.Writing.{rest_fits, length-flatten-take}
use native.Mathlib.Nat.{
  div-add-mod', mod-lt, div-lt_iff_lt-mul, zero-div, div-eq_of_lt, mul-add-div_right,
}

-- The bytes of the blocks from the one of byte `p` on, behind the offset of `p` in it.
drop-flatten :
    (base p : ℕ) (chain : List (List ℕ))
    → AllSized base chain
    → p / base ≤ length chain
    → drop (p % base) (flatten (drop (p / base) chain)) ≡ drop p (flatten chain)
drop-flatten base p chain s h =
    sym (
      drop-append_add (flatten (take (p / base) chain)) (flatten (drop (p / base) chain))
        (p % base))
    ∙ ap₂ (λ q l. drop q l) (length-flatten-take base p chain s h)
        (sym (flatten-append (take (p / base) chain) (drop (p / base) chain))
          ∙ ap flatten (take-append-drop (p / base) chain))

-- A window that lies within a prefix.
take-drop-take :
    (n p size : ℕ) (l : List ℕ)
    → p + n ≤ size
    → size ≤ length l
    → take n (drop p l) ≡ take n (drop p (take size l))
take-drop-take n p size l h k =
    ap (λ r. take n (drop p r)) (sym (take-append-drop size l))
    ∙ ap (take n) (drop-append_le p (take size l) (drop size l) (omega (arith, length-take size l)))
    ∙ take-append_le n (drop p (take size l)) (drop size l)
        (omega (arith, length-take size l, length-drop p (take size l)))

-- A call of `read` hands out `bytes`, and moves the position behind them.
pub record Read (bytes : List ℕ) (b b' : ByteArray) : Type 0 where
  pub valid : IsValid b'
  pub position : b'.position ≡ b.position + length bytes
  pub same_contents : contents b' ≡ contents b
  pub same_size : b'.size ≡ b.size
  pub same_capacity : b'.capacity ≡ b.capacity
  pub same_endian : b'.endian ≡ b.endian
  pub same_host : b'.host ≡ b.host

pub blocks-Copied :
    (base p n : ℕ) (chain : List (List ℕ))
    → AllSized base chain
    → 0 < base
    → p < length chain * base
    → p + n ≤ length chain * base
    → (steps : ℕ) × Copied base (drop (p / base) chain) (p % base) n steps
blocks-Copied base p n chain s pos h fits =
    let below = (div-lt_iff_lt-mul {x = p} {y = length chain} pos).1 h in
    read_loop_total base (drop (p / base) chain) (p % base) n (All-drop _ (p / base) chain s)
      (mod-lt p pos)
      (rw (length-drop (p / base) chain) (rest_fits base p n (length chain) below fits))
      (omega (arith, length-drop (p / base) chain))

-- The loop of `read` at the position copies unread bytes.
pub read_loop-unread :
    (n : ℕ) (b : ByteArray)
    → IsValid b
    → b.position + n ≤ b.size
    → b.position < b.capacity
    → (steps : ℕ) × (read_loop
          (drop (b.position / b.base_size) b.chain)
          (b.position % b.base_size)
          n
        ≡ some (take n (unread b), steps))
read_loop-unread n b v h inside =
    let (steps, c) =
      blocks-Copied b.base_size b.position n b.chain v.sized v.base_pos (omega (arith, v.room))
        (omega (arith, v.room, v.size_le)) in
    (steps, c.result ∙ ap (λ l. some (l, steps)) same)
  where
    all_bytes : length (flatten b.chain) ≡ b.capacity
    all_bytes = length-flatten b.base_size b.chain v.sized ∙ sym v.room

    same :
        take n (drop (b.position % b.base_size) (flatten (drop (b.position / b.base_size) b.chain)))
        ≡ take n (unread b)
    same =
        ap (take n) (
          drop-flatten b.base_size b.position b.chain v.sized (
            omega (
              arith,
              (div-lt_iff_lt-mul {x = b.position} {y = length b.chain} v.base_pos).1
                  (omega (arith, v.room)),
            )))
        ∙ take-drop-take n b.position b.size (flatten b.chain) h
            (omega (arith, all_bytes, v.size_le))

pub length-unread : (b : ByteArray) → IsValid b → length (unread b) ≡ b.size - b.position
length-unread b v =
    let all_bytes = length-flatten b.base_size b.chain v.sized ∙ sym v.room in
    omega (
      arith,
      length-drop b.position (contents b),
      length-take b.size (flatten b.chain),
      all_bytes,
      v.size_le,
    )

-- On a valid ByteArray with at least `n` bytes unread, whose position is not the end of the last block,
-- `read` returns the next `n` bytes, and moves the position behind them.
pub read_lem :
    (n : ℕ) (b : ByteArray)
    → IsValid b
    → b.position + n ≤ b.size
    → b.position < b.capacity
    → (b' : ByteArray) × (read n b ≡ ok (take n (unread b)) b') × Read (take n (unread b)) b b'
unfolding read read_from after_read
read_lem n b v h inside =
    let (steps, c) =
      blocks-Copied b.base_size b.position n b.chain v.sized v.base_pos (omega (arith, v.room))
        (omega (arith, v.room, v.size_le)) in
    let here : b.cur ≡ some (b.position / b.base_size) = ground (arith, v.at_cur) in
    (
      after_read (b.position / b.base_size) n steps b,
      rw (here, read_from, le→ltb_false (get_read_size b) n (omega arith))
          (rw c.result (ap (λ l. ok l (after_read (b.position / b.base_size) n steps b)) same)),
      record {
        valid = record {
          base_pos = v.base_pos;
          sized = v.sized;
          room = v.room;
          rooted = v.rooted;
          position_le = h;
          size_le = v.size_le;
          at_cur =
              advance-block_at b.base_size b.position n steps b.chain v.base_pos
                (omega (arith, v.room, v.size_le)) c.lower c.upper
              ∙ ap (block_at b.base_size (b.position + n)) (sym v.room);
        };
        position = ap (λ t. b.position + t) (sym length-read);
        same_contents = refl;
        same_size = refl;
        same_capacity = refl;
        same_endian = refl;
        same_host = refl;
      },
    )
  where
    all_bytes : length (flatten b.chain) ≡ b.capacity
    all_bytes = length-flatten b.base_size b.chain v.sized ∙ sym v.room

    same :
        take n (drop (b.position % b.base_size) (flatten (drop (b.position / b.base_size) b.chain)))
        ≡ take n (unread b)
    same =
        ap (take n) (
          drop-flatten b.base_size b.position b.chain v.sized (
            omega (
              arith,
              (div-lt_iff_lt-mul {x = b.position} {y = length b.chain} v.base_pos).1
                  (omega (arith, v.room)),
            )))
        ∙ take-drop-take n b.position b.size (flatten b.chain) h
            (omega (arith, all_bytes, v.size_le))

    length-read : length (take n (unread b)) ≡ n
    length-read = omega (
      arith,
      length-take n (unread b),
      length-drop b.position (contents b),
      length-take b.size (flatten b.chain),
      all_bytes,
      v.size_le,
    )

-- On a valid ByteArray a request for more bytes than are unread throws, and changes nothing.
pub read_too_much :
    (n : ℕ) (b : ByteArray) → IsValid b → b.size < b.position + n → read n b ≡ out_of_range b
unfolding read
read_too_much n b v h = rw (lt→ltb (get_read_size b) n (omega (arith, v.position_le)))

-- Reading nothing where the position is the end of the last block goes through the null pointer.
pub read_nothing_at_end :
    (b : ByteArray) → IsValid b → b.position ≡ b.capacity → read 0 b ≡ undefined
unfolding read read_from
read_nothing_at_end b v e = ground (arith, v.at_cur)

-- What a ByteArray is after `setPosition(p)`.
pub record Moved (p : ℕ) (b b' : ByteArray) : Type 0 where
  pub valid : IsValid b'
  pub position : b'.position ≡ p
  pub size : b'.size ≡ (if ltb b.size p then p else b.size)
  pub contents_lem : contents b' ≡ take (if ltb b.size p then p else b.size) (flatten b.chain)
  pub same_endian : b'.endian ≡ b.endian
  pub same_host : b'.host ≡ b.host

-- On a valid ByteArray `setPosition` returns for every position within the capacity: the position is
-- set, the ByteArray stays valid, and the size is raised to the position if that is behind it.
pub set_position_lem :
    (p : ℕ) (b : ByteArray)
    → IsValid b
    → p ≤ b.capacity
    → (b' : ByteArray) × (set_position p b ≡ ok tt b') × Moved p b b'
unfolding set_position
set_position_lem p b v h = (
  record b {
    position = p;
    size = if ltb b.size p then p else b.size;
    cur = advance b.chain 0 (p / b.base_size);
  },
  rw (
    le→ltb_false b.capacity p h,
    seek_total b.base_size p b.chain v.sized v.base_pos (omega (arith, v.room)) v.rooted,
  ),
  record {
    valid = record {
      base_pos = v.base_pos;
      sized = v.sized;
      room = v.room;
      rooted = v.rooted;
      position_le = ground arith;
      size_le = ground (arith, v.size_le);
      at_cur =
          advance_start b.base_size p b.chain v.base_pos ∙ ap (block_at b.base_size p) (sym v.room);
    };
    position = refl;
    size = refl;
    contents_lem = refl;
    same_endian = refl;
    same_host = refl;
  },
)

-- A position behind the last block throws.
pub set_position_too_far :
    (p : ℕ) (b : ByteArray) → b.capacity < p → set_position p b ≡ out_of_range b
unfolding set_position
set_position_too_far p b h = rw (lt→ltb b.capacity p h)

-- The offset of `p` in the block of `c`.
offset_in_block :
    (base c p : ℕ)
    → 0 < base
    → ((c / base * base + p % base) / base ≡ c / base)
      × ((c / base * base + p % base) % base ≡ p % base)
offset_in_block base c p pos = (
  quotient,
  omega (arith, div-add-mod' (c / base * base + p % base) base, ap (λ (t : ℕ). t * base) quotient),
)
  where
    quotient : (c / base * base + p % base) / base ≡ c / base
    quotient =
        mul-add-div_right pos (c / base) (p % base) ∙ omega (arith, div-eq_of_lt (mod-lt p pos))

-- On a valid ByteArray whose position is not the end of the last block, the const `read` takes the
-- offset from `position` but the block from `m_cur`: for a request within the size, which also fits
-- behind that place, it returns the bytes at that offset in the current block and behind it.
pub read_at_lem :
    (n p : ℕ) (b : ByteArray)
    → IsValid b
    → b.size < 2 ^ 64
    → p + n ≤ b.size
    → b.position < b.capacity
    → b.position / b.base_size * b.base_size + p % b.base_size + n ≤ b.capacity
    → read_at n p b
      ≡ ok
          (take n
            (drop (b.position / b.base_size * b.base_size + p % b.base_size) (flatten b.chain)))
          b
unfolding read_at read_at_from
read_at_lem n p b v w h inside fits =
    let (steps, c) =
      blocks-Copied b.base_size q n b.chain v.sized v.base_pos started (omega (arith, v.room)) in
    let copied = rw (o.0, o.1) at c.result in
    rw (here, read_at_from, le→ltb_false ((b.size + 2 ^ 64 - p) % 2 ^ 64) n (omega arith))
      (rw copied
        (ap (λ l. ok (take n l) (record b { cur = some (b.position / b.base_size) })) window))
  where
    q : ℕ
    q = b.position / b.base_size * b.base_size + p % b.base_size

    o : (q / b.base_size ≡ b.position / b.base_size) × (q % b.base_size ≡ p % b.base_size)
    o = offset_in_block b.base_size b.position p v.base_pos

    below : b.position / b.base_size < length b.chain
    below =
        (div-lt_iff_lt-mul {x = b.position} {y = length b.chain} v.base_pos).1
          (omega (arith, v.room))

    started : q < length b.chain * b.base_size
    started = (div-lt_iff_lt-mul {x = q} {y = length b.chain} v.base_pos).0 (rw o.0 below)

    here : b.cur ≡ some (b.position / b.base_size)
    here = ground (arith, v.at_cur)

    window :
        drop (p % b.base_size) (flatten (drop (b.position / b.base_size) b.chain))
        ≡ drop q (flatten b.chain)
    window =
        rw (o.0, o.1) at
          (drop-flatten b.base_size q b.chain v.sized (rw o.0 (omega (arith, below))))

-- On a valid ByteArray of less than 2 ^ 64 bytes `toString` returns the unread bytes, and leaves the
-- ByteArray as it is.
pub to_string_lem : (b : ByteArray) → IsValid b → b.size < 2 ^ 64 → to_string b ≡ ok (unread b) b
unfolding to_string
to_string_lem b v w = elim (dec_lt b.position b.size) [
  | yes more ↦ rw (nonzero more) (
      read_at_lem (get_read_size b) b.position b v w (omega arith) (omega (arith, v.size_le))
        (omega (arith, v.size_le, div-add-mod' b.position b.base_size))
      ∙ ap (λ p. ok (take (get_read_size b) (drop p (flatten b.chain))) b)
          (div-add-mod' b.position b.base_size)
      ∙ ap (λ l. ok l b)
          (take-drop-take (get_read_size b) b.position b.size (flatten b.chain) (omega arith)
              (omega (arith, all_bytes, v.size_le))
            ∙ take_all (get_read_size b) (unread b) (
                omega (
                  arith,
                  length-drop b.position (contents b),
                  length-take b.size (flatten b.chain),
                ))))
  | no done ↦ ground (
    arith,
    drop_all b.position (contents b) (omega (arith, length-take b.size (flatten b.chain))),
  )
]
  where
    all_bytes : length (flatten b.chain) ≡ b.capacity
    all_bytes = length-flatten b.base_size b.chain v.sized ∙ sym v.room

    nonzero : b.position < b.size → (get_read_size b == 0) ≡ false
    nonzero h = ground arith

-- `clear` makes of a valid ByteArray a valid one without contents.
pub clear_lem : (b : ByteArray) → IsValid b → IsValid (clear b) × (contents (clear b) ≡ [])
unfolding clear
clear_lem b v = (
  record {
    base_pos = v.base_pos;
    sized = All-take _ 1 b.chain v.sized;
    room = omega (arith, ap (λ (t : ℕ). t * b.base_size) root);
    rooted = omega (arith, root);
    position_le = omega arith;
    size_le = omega arith;
    at_cur = ground (arith, v.base_pos, zero-div b.base_size);
  },
  refl,
)
  where
    root : length (take 1 b.chain) ≡ 1
    root = omega (arith, length-take 1 b.chain, v.rooted)
