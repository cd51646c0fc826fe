-- ===== src/ByteArray.antt =====
-- sylar/bytearray.h and sylar/bytearray.cpp: the chain of blocks and the raw operations on it.
pub mod Codec
pub mod Chain
pub mod Validity
pub mod Writing
pub mod Reading
pub mod Buffers
pub mod Scattering
pub mod Offering
pub mod Filling
mod Examples
use sylar_leo.Base.{
  ℕ, zero, suc, ◌+◌, ◌-◌, ◌*◌, ◌/◌, ◌%◌, ◌^◌, Bool, true, false, Option, none, some, List, [], ◌∷◌,
  ◌++◌, ltb, leb, ◌==◌, if◌then◌else◌, ◌≡◌, refl, ap, length, take, drop, replicate,
}
use mathlib.Core.Option

-- SYLAR_LITTLE_ENDIAN and SYLAR_BIG_ENDIAN.
pub data Endian : Type 0 where
  little big : Endian

-- `chain` is the list of blocks from `m_root` along `next`: a block (`Node`) is the array behind
-- its `ptr`, and its `size` is the length of that array. `cur` is `m_cur` as the place of a block
-- in the chain, `none` for the null pointer. `host` is SYLAR_BYTE_ORDER, and `junk` is what the
-- memory of a new block holds.
pub record ByteArray : Type 0 where
  pub base_size : ℕ
  pub position : ℕ
  pub capacity : ℕ
  pub size : ℕ
  pub endian : Endian
  pub chain : List (List ℕ)
  pub cur : Option ℕ
  pub host : Endian
  pub junk : ℕ

-- A call returns, throws `std::out_of_range`, or has undefined behaviour: it reads through the null
-- pointer `m_cur`, or writes behind a local array.
pub data Outcome {ℓ} (A : Type ℓ) : Type ℓ where
  ok : A → ByteArray → Outcome A
  out_of_range : ByteArray → Outcome A
  undefined : Outcome A

abbrev pub M : Type 0 → Type 0
M A = ByteArray → Outcome A

abbrev pub continue : {A B : Type 0} → Outcome A → (A → M B) → Outcome B
continue (ok a b) f = f a b
continue (out_of_range b) f = out_of_range b
continue undefined f = undefined

infixl 5 ◌>>=◌ ◌>>◌
abbrev pub ◌>>=◌ : {A B : Type 0} → M A → (A → M B) → M B
◌>>=◌ m f b = continue (m b) f

abbrev pub ◌>>◌ : {B : Type 0} → M (Unit {0}) → M B → M B
m >> k = m >>= λ _. k

pub bind_ok :
    {A B : Type 0} (m : M A) (f : A → M B) (b : ByteArray) {a : A} {b' : ByteArray}
    → m b ≡ ok a b'
    → (m >>= f) b ≡ f a b'
bind_ok m f b e = ap (λ o. continue o f) e

continue_assoc :
    {A B C : Type 0} (o : Outcome A) (k : A → M B) (f : B → M C)
    → continue (continue o k) f ≡ continue o (λ a. k a >>= f)
continue_assoc (ok a b) k f = refl
continue_assoc (out_of_range b) k f = refl
continue_assoc undefined k f = refl

pub bind_assoc :
    {A B C : Type 0} (m : M A) (k : A → M B) (f : B → M C) (b : ByteArray)
    → ((m >>= k) >>= f) b ≡ (m >>= λ a. k a >>= f) b
bind_assoc m k f b = continue_assoc (m b) k f

pub new_byte_array : Endian → ℕ → ℕ → ByteArray
new_byte_array host junk base_size = record {
  base_size = base_size;
  position = 0;
  capacity = base_size;
  size = 0;
  endian = big;
  chain = replicate base_size junk ∷ [];
  cur = some 0;
  host = host;
  junk = junk;
}

pub is_little_endian : ByteArray → Bool
is_little_endian b = elim b.endian [ little ↦ true | big ↦ false ]

pub set_is_little_endian : Bool → ByteArray → ByteArray
set_is_little_endian val b = record b { endian = if val then little else big }

abbrev pub get_capacity : ByteArray → ℕ
get_capacity b = b.capacity - b.position

abbrev pub get_read_size : ByteArray → ℕ
get_read_size b = b.size - b.position

-- `next` followed `k` times from the block at `i`.
pub advance : List (List ℕ) → ℕ → ℕ → Option ℕ
advance chain i k = if ltb (i + k) (length chain) then some (i + k) else none

-- The loop of `addCapacity` that links `count` new blocks to the end of the chain; `first` is the
-- first of them.
grow : ℕ → ByteArray → ByteArray
grow count b =
    let first : Option ℕ = if count == 0 then none else some (length b.chain) in
    record b {
      chain = b.chain ++ replicate count (replicate b.base_size b.junk);
      capacity = b.capacity + count * b.base_size;
      cur = if get_capacity b == 0 then first else b.cur;
    }

-- The number of blocks is `ceil(1.0 * size / m_baseSize)` for the room that is missing.
pub add_capacity : ℕ → ByteArray → ByteArray
unfolding grow
add_capacity n b =
    if n == 0
    then b
    else if leb n (get_capacity b)
    then b
    else grow ((n - get_capacity b + b.base_size - 1) / b.base_size) b

-- `memcpy(node->ptr + npos, bytes, …)`.
unfoldable pub overwrite : ℕ → List ℕ → List ℕ → List ℕ
overwrite npos bytes node = take npos node ++ (bytes ++ drop (npos + length bytes) node)

-- The loop of `write` over the blocks from `m_cur`; the second part of the result counts the steps
-- of `m_cur` along `next`. `none`: `m_cur` is null where its `size` is read.
pub write_loop : List (List ℕ) → ℕ → List ℕ → Option (List (List ℕ) × ℕ)
write_loop [] npos buf = none
write_loop (node ∷ nodes) npos buf =
    let ncap = length node - npos in
    let rest =
      Option.map {B = List (List ℕ) × ℕ} (λ p. (overwrite npos (take ncap buf) node ∷ p.0, suc p.1))
        (write_loop nodes 0 (drop ncap buf)) in
    if leb (length buf) ncap
    then some (overwrite npos buf node ∷ nodes, if length node == npos + length buf then 1 else 0)
    else rest

-- The fields that the loop and the lines behind it set: `m_cur` started at block `i`.
after_write : ℕ → ℕ → List (List ℕ) → ℕ → ByteArray → ByteArray
after_write i n nodes steps b = record b {
  chain = take i b.chain ++ nodes;
  cur = advance b.chain i steps;
  position = b.position + n;
  size = if ltb b.size (b.position + n) then b.position + n else b.size;
}

write_from : Option ℕ → List ℕ → M (Unit {0})
write_from none buf b = undefined
write_from (some i) buf b = elim (write_loop (drop i b.chain) (b.position % b.base_size) buf) [
  | none ↦ undefined
  | some (nodes, steps) ↦ ok tt (after_write i (length buf) nodes steps b)
]

pub write : List ℕ → M (Unit {0})
write buf b =
    let b' = add_capacity (length buf) b in
    if length buf == 0 then ok tt b else write_from b'.cur buf b'

-- The loop of the two `read`s: the bytes copied, and the steps of the block pointer.
pub read_loop : List (List ℕ) → ℕ → ℕ → Option (List ℕ × ℕ)
read_loop [] npos n = none
read_loop (node ∷ nodes) npos n =
    let ncap = length node - npos in
    let rest =
      Option.map {B = List ℕ × ℕ} (λ p. (take ncap (drop npos node) ++ p.0, suc p.1))
        (read_loop nodes 0 (n - ncap)) in
    if n == 0
    then some ([], 0)
    else if leb n ncap
    then some (take n (drop npos node), if length node == npos + n then 1 else 0)
    else rest

-- `m_cur` and the position behind `n` bytes read from block `i` on.
after_read : ℕ → ℕ → ℕ → ByteArray → ByteArray
after_read i n steps b = record b { cur = advance b.chain i steps; position = b.position + n }

read_from : Option ℕ → ℕ → M (List ℕ)
read_from none n b = undefined
read_from (some i) n b = elim (read_loop (drop i b.chain) (b.position % b.base_size) n) [
  | none ↦ undefined
  | some (bytes, steps) ↦ ok bytes (after_read i n steps b)
]

pub read : ℕ → M (List ℕ)
read n b = if ltb (get_read_size b) n then out_of_range b else read_from b.cur n b

-- `read(buf, size, position) const`: the offset comes from `position`, the block from `m_cur`.
-- `m_size - position` is of type size_t and wraps.
pub read_at_from : Option ℕ → ℕ → ℕ → M (List ℕ)
read_at_from none n position b = undefined
read_at_from (some i) n position b = elim (read_loop (drop i b.chain) (position % b.base_size) n) [
  | none ↦ undefined
  | some (bytes, steps) ↦ ok bytes b
]

pub read_at : ℕ → ℕ → M (List ℕ)
unfolding read_at_from
read_at n position b =
    if ltb ((b.size + 2 ^ 64 - position) % 2 ^ 64) n
    then out_of_range b
    else read_at_from b.cur n position b

-- The walk of `setPosition` from `m_root`: the steps of `m_cur`.
pub seek : List (List ℕ) → ℕ → Option ℕ
seek [] v = none
seek (node ∷ nodes) v =
    let rest = Option.map suc (seek nodes (v - length node)) in
    if ltb (length node) v then rest else some (if v == length node then 1 else 0)

pub set_position : ℕ → M (Unit {0})
set_position v b =
    let moved : Outcome (Unit {0}) = elim (seek b.chain v) [
      | none ↦ undefined
      | some steps ↦ ok tt (record b {
        position = v;
        size = if ltb b.size v then v else b.size;
        cur = advance b.chain 0 steps;
      })
    ] in
    if ltb b.capacity v then out_of_range b else moved

-- The root block stays, with what it holds.
pub clear : ByteArray → ByteArray
clear b = record b {
  position = 0;
  size = 0;
  capacity = b.base_size;
  chain = take 1 b.chain;
  cur = some 0;
}

pub to_string : M (List ℕ)
to_string b = if get_read_size b == 0 then ok [] b else read_at (get_read_size b) b.position b
