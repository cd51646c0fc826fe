-- ===== src/ByteArray/Validity.antt =====
-- The invariant of a ByteArray, and what the raw operations do to the bytes that it holds.
use sylar_leo.Base.{
  ℕ, ◌+◌, ◌-◌, ◌*◌, ◌/◌, ◌%◌, ◌≤◌, ◌<◌, ◌≡◌, refl, ◌∙◌, sym, ap, Option, none, some, List, ◌++◌,
  ltb, if◌then◌else◌, length, take, drop, replicate, flatten, length-append, length-replicate,
  take-append_le, flatten-append, All-append, All-replicate, dec_le, arith,
}
use sylar_leo.ByteArray.{
  ByteArray, overwrite, grow, get_capacity, add_capacity, new_byte_array, advance, Endian,
}
use sylar_leo.ByteArray.Chain.{AllSized, length-flatten}
use native.Mathlib.Nat.{
  div-eq_of_lt-le, div-add-mod', mod-lt, zero-div, div-eq_of_eq-mul_left, div-lt_iff_lt-mul,
}

-- The block that holds the byte at `position`: none if the chain ends there.
abbrev pub block_at : ℕ → ℕ → ℕ → Option ℕ
block_at base position capacity = if ltb position capacity then some (position / base) else none

pub record IsValid (b : ByteArray) : Type 0 where
  pub base_pos : 0 < b.base_size
  pub sized : AllSized b.base_size b.chain
  pub room : b.capacity ≡ length b.chain * b.base_size
  pub rooted : 0 < length b.chain
  pub position_le : b.position ≤ b.size
  pub size_le : b.size ≤ b.capacity
  pub at_cur : b.cur ≡ block_at b.base_size b.position b.capacity

-- The abstract view: the bytes up to `size`, and those that are still to be read.
abbrev pub contents : ByteArray → List ℕ
contents b = take b.size (flatten b.chain)

abbrev pub unread : ByteArray → List ℕ
unread b = drop b.position (contents b)

pub new_byte_array-IsValid :
    (host : Endian) (junk base : ℕ) → 0 < base → IsValid (new_byte_array host junk base)
unfolding new_byte_array
new_byte_array-IsValid host junk base h = record {
  base_pos = h;
  sized = (length-replicate base junk, tt);
  room = omega arith;
  rooted = omega arith;
  position_le = omega arith;
  size_le = omega arith;
  at_cur = ground (arith, zero-div base);
}

-- A ByteArray `g` that is `b` with room for `n` bytes behind the position.
pub record Grown (n : ℕ) (b g : ByteArray) : Type 0 where
  pub valid : IsValid g
  pub fits : g.position + n ≤ g.capacity
  pub same_base : g.base_size ≡ b.base_size
  pub same_position : g.position ≡ b.position
  pub same_size : g.size ≡ b.size
  pub same_contents : contents g ≡ contents b
  pub same_endian : g.endian ≡ b.endian
  pub same_host : g.host ≡ b.host

pub contents-append :
    (n : ℕ) (nodes more : List (List ℕ))
    → n ≤ length (flatten nodes)
    → take n (flatten (nodes ++ more)) ≡ take n (flatten nodes)
contents-append n nodes more h =
    rw (flatten-append nodes more) (take-append_le n (flatten nodes) (flatten more) h)

ceil_blocks :
    (m base : ℕ)
    → 0 < base
    → 0 < m
    → (m ≤ (m + base - 1) / base * base) × (0 < (m + base - 1) / base)
ceil_blocks m base pos h =
    let e = div-add-mod' (m + base - 1) base in
    let l = mod-lt (m + base - 1) pos in (omega (arith, e, l), grind (arith, e, l))

grow-Grown :
    (n count : ℕ) (b : ByteArray)
    → IsValid b
    → n ≤ get_capacity b + count * b.base_size
    → 0 < count
    → Grown n b (grow count b)
unfolding grow
grow-Grown n count b v h pos = record {
  valid = record {
    base_pos = v.base_pos;
    sized =
        All-append _ b.chain _ v.sized
          (All-replicate _ count _ (length-replicate b.base_size b.junk));
    room = ap (λ (t : ℕ). t + count * b.base_size) v.room ∙ sym area;
    rooted = longer;
    position_le = v.position_le;
    size_le = omega (arith, v.size_le);
    at_cur = ground (
      arith,
      v.at_cur,
      v.position_le,
      v.size_le,
      product_pos,
      div-eq_of_eq-mul_left {m = b.position} {k = length b.chain} v.base_pos,
    );
  };
  fits = omega (arith, v.position_le, v.size_le);
  same_base = refl;
  same_position = refl;
  same_size = refl;
  same_contents =
      contents-append b.size b.chain _
        (omega (arith, v.size_le, v.room, length-flatten b.base_size b.chain v.sized));
  same_endian = refl;
  same_host = refl;
}
  where
    blocks :
        length (b.chain ++ replicate count (replicate b.base_size b.junk)) ≡ length b.chain + count
    blocks = omega (
      arith,
      length-append b.chain (replicate count (replicate b.base_size b.junk)),
      length-replicate count (replicate b.base_size b.junk),
    )

    area :
        length (b.chain ++ replicate count (replicate b.base_size b.junk)) * b.base_size
        ≡ length b.chain * b.base_size + count * b.base_size
    area = rw blocks (omega arith)

    longer : 0 < length (b.chain ++ replicate count (replicate b.base_size b.junk))
    longer = rw blocks (omega (arith, v.rooted))

    product_pos : 0 < count * b.base_size
    product_pos = grind (arith, v.base_pos)

-- On every valid ByteArray `addCapacity` makes room for `n` bytes behind the position: what it leaves
-- is valid, with the same bytes, size and position.
pub add_capacity-Grown : (n : ℕ) (b : ByteArray) → IsValid b → Grown n b (add_capacity n b)
unfolding add_capacity
add_capacity-Grown n b v = elim (dec_le n (get_capacity b)) [
  | yes enough ↦ let e : add_capacity n b ≡ b = ground arith in rw e (unchanged enough)
  | no short ↦
      let c = ceil_blocks (n - get_capacity b) b.base_size v.base_pos (omega arith) in
      let e : add_capacity n b ≡ grow ((n - get_capacity b + b.base_size - 1) / b.base_size) b =
        ground arith in
      rw e (grow-Grown n _ b v (omega (arith, c.0)) c.1)
]
  where
    unchanged : n ≤ get_capacity b → Grown n b b
    unchanged h = record {
      valid = v;
      fits = omega (arith, v.position_le, v.size_le);
      same_base = refl;
      same_position = refl;
      same_size = refl;
      same_contents = refl;
      same_endian = refl;
      same_host = refl;
    }

-- What a call of `write` does to the bytes and to the position.
pub record Written (buf : List ℕ) (b b' : ByteArray) : Type 0 where
  pub valid : IsValid b'
  pub position : b'.position ≡ b.position + length buf
  pub contents_lem : contents b' ≡ overwrite b.position buf (contents b)
  pub same_endian : b'.endian ≡ b.endian
  pub same_host : b'.host ≡ b.host

-- `q` whole blocks and `npos` bytes, moved on by `steps` blocks.
block_div :
    (base p m steps : ℕ)
    → 0 < base
    → steps * base ≤ p % base + m
    → p % base + m < (steps + 1) * base
    → (p + m) / base ≡ p / base + steps
block_div base p m steps pos lo hi =
    div-eq_of_lt-le base {m = p + m} (omega (arith, div-add-mod' p base))
      (omega (arith, div-add-mod' p base))

-- `m_cur` after `steps` moves is the block of the new position.
pub advance-block_at :
    (base p m steps : ℕ) (chain : List (List ℕ))
    → 0 < base
    → p + m ≤ length chain * base
    → steps * base ≤ p % base + m
    → p % base + m < (steps + 1) * base
    → advance chain (p / base) steps ≡ block_at base (p + m) (length chain * base)
unfolding advance
advance-block_at base p m steps chain pos h lo hi = rw (← block_div base p m steps pos lo hi) (
    ground (
      arith,
      (div-lt_iff_lt-mul {x = p + m} {y = length chain} pos).0,
      (div-lt_iff_lt-mul {x = p + m} {y = length chain} pos).1,
    ))

pub advance_start :
    (base p : ℕ) (chain : List (List ℕ))
    → 0 < base
    → advance chain 0 (p / base) ≡ block_at base p (length chain * base)
unfolding advance
advance_start base p chain pos = ground (
  arith,
  (div-lt_iff_lt-mul {x = p} {y = length chain} pos).0,
  (div-lt_iff_lt-mul {x = p} {y = length chain} pos).1,
)
