-- ===== src/ByteArray/Writing.antt =====
-- `write` against the bytes that a ByteArray holds.
use sylar_leo.Base.{
  ℕ, ◌+◌, ◌-◌, ◌*◌, ◌/◌, ◌%◌, ◌≤◌, ◌<◌, ◌≡◌, refl, ◌∙◌, sym, ap, some, List, [], ◌∷◌, ◌++◌, ltb,
  if◌then◌else◌, length, take, drop, flatten, length-append, length-take, length-drop,
  take-append_le, drop_all, append-nil, flatten-append, All-append, All-take, All-drop,
  take-append-drop, dec_le, append_assoc, take_all, ap₂, le→ltb_false, lt→ltb, arith,
}
use sylar_leo.ByteArray.{ByteArray, ok, overwrite, add_capacity, write_from, write, after_write}
use sylar_leo.ByteArray.Chain.{
  AllSized, length-flatten, length-overwrite, overwrite-append, overwrite-append_after, Wrote,
  write_loop_total,
}
use sylar_leo.ByteArray.Validity.{
  IsValid, contents, Grown, Written, add_capacity-Grown, advance-block_at, block_at,
}
use native.Mathlib.Nat.{div-add-mod', mod-lt, div-lt_iff_lt-mul}

-- The prefix of an overwritten sequence that reaches to the end of the old prefix or of the write.
pub take-overwrite :
    (size p : ℕ) (buf l : List ℕ)
    → p ≤ size
    → size ≤ length l
    → p + length buf ≤ length l
    → take (if ltb size (p + length buf) then p + length buf else size) (overwrite p buf l)
      ≡ overwrite p buf (take size l)
unfolding overwrite
take-overwrite size p buf l h k fits = elim (dec_le (p + length buf) size) [
  | yes inside ↦ rw (le→ltb_false size (p + length buf) inside) (
      ap (λ r. take size (overwrite p buf r)) (sym (take-append-drop size l))
      ∙ ap (take size)
          (overwrite-append p buf (take size l) (drop size l) (omega (arith, length-take size l)))
      ∙ take-append_le size (overwrite p buf (take size l)) (drop size l) (omega (arith, kept))
      ∙ take_all size (overwrite p buf (take size l)) (omega (arith, kept)))
  | no over ↦ rw (lt→ltb size (p + length buf) (omega arith)) (
      ap (take (p + length buf)) (sym (append_assoc (take p l) buf (drop (p + length buf) l)))
      ∙ take-append_le (p + length buf) (take p l ++ buf) (drop (p + length buf) l)
          (omega (arith, front))
      ∙ take_all (p + length buf) (take p l ++ buf) (omega (arith, front))
      ∙ ap (λ r. r ++ buf)
          (ap (take p) (sym (take-append-drop size l))
            ∙ take-append_le p (take size l) (drop size l) (omega (arith, length-take size l)))
      ∙ ap (λ r. take p (take size l) ++ r) (sym (append-nil buf))
      ∙ ap (λ r. take p (take size l) ++ (buf ++ r))
          (sym (drop_all (p + length buf) (take size l) (omega (arith, length-take size l)))))
]
  where
    kept : p + length buf ≤ size → length (overwrite p buf (take size l)) ≡ size
    kept inside =
        length-overwrite p buf (take size l) (omega (arith, length-take size l))
        ∙ omega (arith, length-take size l)

    front : length (take p l ++ buf) ≡ p + length buf
    front = omega (arith, length-append (take p l) buf, length-take p l)

-- The blocks from the one of byte `p` on have room for what the chain has room for.
pub rest_fits :
    (base p m n : ℕ) → p / base < n → p + m ≤ n * base → p % base + m ≤ (n - p / base) * base
rest_fits base p m n below h =
    let (d, e) = split in
    let diff : n - p / base ≡ d = omega arith in
    rw diff (omega (arith, div-add-mod' p base, ap (λ (t : ℕ). t * base) e))
  where
    split : (d : ℕ) × (n ≡ p / base + d)
    split = (n - p / base, omega arith)

pub length-flatten-take :
    (base p : ℕ) (chain : List (List ℕ))
    → AllSized base chain
    → p / base ≤ length chain
    → length (flatten (take (p / base) chain)) + p % base ≡ p
length-flatten-take base p chain s h =
    ap (λ (t : ℕ). t + p % base)
      (length-flatten base (take (p / base) chain) (All-take _ (p / base) chain s)
        ∙ ap (λ (t : ℕ). t * base) (omega (arith, length-take (p / base) chain)))
    ∙ div-add-mod' p base

pub flatten_overwritten :
    (base p : ℕ) (buf : List ℕ) (chain nodes : List (List ℕ))
    → AllSized base chain
    → p / base ≤ length chain
    → flatten nodes ≡ overwrite (p % base) buf (flatten (drop (p / base) chain))
    → flatten (take (p / base) chain ++ nodes) ≡ overwrite p buf (flatten chain)
flatten_overwritten base p buf chain nodes s h e =
    flatten-append (take (p / base) chain) nodes
    ∙ ap (λ l. flatten (take (p / base) chain) ++ l) e
    ∙ sym (
        overwrite-append_after (p % base) buf (flatten (take (p / base) chain))
          (flatten (drop (p / base) chain)))
    ∙ ap₂ (λ q l. overwrite q buf l) (length-flatten-take base p chain s h)
        (sym (flatten-append (take (p / base) chain) (drop (p / base) chain))
          ∙ ap flatten (take-append-drop (p / base) chain))

after_write-Written :
    (buf : List ℕ) (b : ByteArray) (nodes : List (List ℕ)) (steps : ℕ)
    → IsValid b
    → b.position + length buf ≤ b.capacity
    → b.position / b.base_size < length b.chain
    → Wrote b.base_size
        (drop (b.position / b.base_size) b.chain)
        (b.position % b.base_size)
        buf
        nodes
        steps
    → Written buf b (after_write (b.position / b.base_size) (length buf) nodes steps b)
unfolding after_write
after_write-Written buf b nodes steps v fits below w = record {
  valid = record {
    base_pos = v.base_pos;
    sized = All-append _ (take i b.chain) nodes (All-take _ i b.chain v.sized) w.sized;
    room = v.room ∙ ap (λ (t : ℕ). t * b.base_size) (sym same_blocks);
    rooted = rw same_blocks v.rooted;
    position_le = ground arith;
    size_le = ground (arith, v.size_le);
    at_cur =
        advance-block_at b.base_size b.position (length buf) steps b.chain v.base_pos
          (omega (arith, v.room)) w.lower w.upper
        ∙ ap (block_at b.base_size (b.position + length buf)) (sym v.room);
  };
  position = refl;
  contents_lem =
      ap (take (if ltb b.size (b.position + length buf) then b.position + length buf else b.size))
        (flatten_overwritten b.base_size b.position buf b.chain nodes v.sized (omega arith) w.bytes)
      ∙ take-overwrite b.size b.position buf (flatten b.chain) v.position_le
          (omega (arith, all_bytes, v.size_le)) (omega (arith, all_bytes));
  same_endian = refl;
  same_host = refl;
}
  where
    i : ℕ
    i = b.position / b.base_size

    all_bytes : length (flatten b.chain) ≡ b.capacity
    all_bytes = length-flatten b.base_size b.chain v.sized ∙ sym v.room

    same_blocks : length (take i b.chain ++ nodes) ≡ length b.chain
    same_blocks = omega (
      arith,
      length-append (take i b.chain) nodes,
      length-take i b.chain,
      w.same_length,
      length-drop i b.chain,
    )

-- Where the bytes fit, the null pointer is never read and the loop comes to its end.
write_from_lem :
    (buf : List ℕ) (b : ByteArray)
    → IsValid b
    → 0 < length buf
    → b.position + length buf ≤ b.capacity
    → (b' : ByteArray) × (write_from b.cur buf b ≡ ok tt b') × Written buf b b'
unfolding write_from
write_from_lem buf b v ne fits =
    let below =
      (div-lt_iff_lt-mul {x = b.position} {y = length b.chain} v.base_pos).1
        (omega (arith, v.room)) in
    let rest_length : length (drop (b.position / b.base_size) b.chain)
        ≡ length b.chain - b.position / b.base_size =
      length-drop _ b.chain in
    let (nodes, steps, w) =
      write_loop_total b.base_size (drop (b.position / b.base_size) b.chain)
        (b.position % b.base_size) buf (All-drop _ _ b.chain v.sized) (mod-lt b.position v.base_pos)
        ne
        (rw rest_length (
          rest_fits b.base_size b.position (length buf) (length b.chain) below
            (omega (arith, v.room)))) in
    let here : b.cur ≡ some (b.position / b.base_size) = ground (arith, v.at_cur) in
    (
      after_write (b.position / b.base_size) (length buf) nodes steps b,
      rw (here, write_from) (rw w.result),
      after_write-Written buf b nodes steps v fits below w,
    )

pub Written-after_growth :
    (buf : List ℕ) (n : ℕ) (b g b' : ByteArray) → Grown n b g → Written buf g b' → Written buf b b'
Written-after_growth buf n b g b' v w = record {
  valid = w.valid;
  position = w.position ∙ ap (λ t. t + length buf) v.same_position;
  contents_lem = w.contents_lem ∙ ap₂ (λ p l. overwrite p buf l) v.same_position v.same_contents;
  same_endian = w.same_endian ∙ v.same_endian;
  same_host = w.same_host ∙ v.same_host;
}

nothing-Written : (b : ByteArray) → IsValid b → Written [] b b
unfolding overwrite
nothing-Written b v = record {
  valid = v;
  position = omega arith;
  contents_lem = sym (
      ap (λ p. take b.position (contents b) ++ drop p (contents b)) no_more
      ∙ take-append-drop b.position (contents b));
  same_endian = refl;
  same_host = refl;
}
  where
    no_more : b.position + 0 ≡ b.position
    no_more = omega arith

-- On every valid ByteArray `write` returns: it puts the bytes at the position, over what stood there
-- and past the end, leaves all other bytes, and moves the position behind them.
pub write_lem :
    (buf : List ℕ) (b : ByteArray)
    → IsValid b
    → (b' : ByteArray) × (write buf b ≡ ok tt b') × Written buf b b'
unfolding write
write_lem [] b v = (b, refl, nothing-Written b v)
write_lem (x ∷ buf) b v =
    let g = add_capacity-Grown (length (x ∷ buf)) b v in
    let (b', e, w) =
      write_from_lem (x ∷ buf) (add_capacity (length (x ∷ buf)) b) g.valid (omega arith) g.fits in
    (b', ground (arith, e), Written-after_growth _ _ _ _ _ g w)
