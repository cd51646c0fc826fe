-- ===== src/ByteArray/Offering.antt =====
-- getWriteBuffers of sylar/bytearray.cpp: the buffers are there, and have the room that is asked for.
use sylar_leo.Base.{
  ℕ, ◌+◌, ◌-◌, ◌/◌, ◌%◌, ◌≤◌, ◌<◌, ◌≡◌, refl, ap, false, some, List, arith, ◌==◌, length, take,
  drop, flatten, length-take, length-drop, All-drop,
}
use sylar_leo.ByteArray.{ByteArray, add_capacity}
use sylar_leo.ByteArray.Chain.{read_loop_total}
use sylar_leo.ByteArray.Validity.{IsValid, add_capacity-Grown}
use sylar_leo.ByteArray.Writing.{rest_fits}
use sylar_leo.ByteArray.Buffers.{
  Iovec, buffers_loop, buffers_loop-read_loop, gather, get_write_buffers,
}
use native.Mathlib.Nat.{mod-lt, div-lt_iff_lt-mul}

pub below_blocks :
    (b : ByteArray)
    → IsValid b
    → b.position < b.capacity
    → b.position / b.base_size < length b.chain
below_blocks b v h =
    (div-lt_iff_lt-mul {x = b.position} {y = length b.chain} v.base_pos).1
      (omega (arith, v.room, h))

pub write_buffers_some :
    (len : ℕ) (b : ByteArray)
    → IsValid b
    → 0 < len
    → b.position + len ≤ b.capacity
    → (vs : List Iovec) × (buffers_loop
          (drop (b.position / b.base_size) b.chain)
          (b.position % b.base_size)
          len
        ≡ some vs)
      × (length (gather (drop (b.position / b.base_size) b.chain) vs) ≤ len)
write_buffers_some len b v more fits =
    let i = b.position / b.base_size in
    let below = below_blocks b v (omega (arith, more, fits)) in
    let blocks : length (drop i b.chain) ≡ length b.chain - i = length-drop i b.chain in
    let (steps, c) =
      read_loop_total b.base_size (drop i b.chain) (b.position % b.base_size) len
        (All-drop _ i b.chain v.sized) (mod-lt b.position v.base_pos)
        (rw blocks (
          rest_fits b.base_size b.position len (length b.chain) below
            (omega (arith, v.room, fits))))
        (omega (arith, below, blocks)) in
    let npos = b.position % b.base_size in
    let bytes = take len (drop npos (flatten (drop i b.chain))) in
    let (vs, found, g) = buffers_loop-read_loop (drop i b.chain) npos len bytes steps c.result in
    (vs, found, omega (arith, ap length g, length-take len (drop npos (flatten (drop i b.chain)))))

-- The buffers of `getWriteBuffers`, on the ByteArray with the room that it made.
pub get_write_buffers-Grown :
    (len : ℕ) (b : ByteArray)
    → IsValid b
    → 0 < len
    → (vs : List Iovec) × (get_write_buffers len b ≡ (add_capacity len b, some vs))
      × (buffers_loop
            (drop
              ((add_capacity len b).position / (add_capacity len b).base_size)
              (add_capacity len b).chain)
            ((add_capacity len b).position % (add_capacity len b).base_size)
            len
          ≡ some vs)
      × (length (
            gather
              (drop
                ((add_capacity len b).position / (add_capacity len b).base_size)
                (add_capacity len b).chain)
              vs)
          ≤ len)
unfolding get_write_buffers
get_write_buffers-Grown len b v more =
    let g = add_capacity len b in
    let w = add_capacity-Grown len b v in
    let here : g.cur ≡ some (g.position / g.base_size) =
      ground (arith, w.valid.at_cur, w.fits, more) in
    let some_bytes : (len == 0) ≡ false = ground (arith, more) in
    let (vs, found, held) = write_buffers_some len g w.valid more w.fits in
    (vs, rw (some_bytes, here, found) refl, found, held)
