-- ===== src/ByteArray/Buffers.antt =====
-- sylar/bytearray.cpp: the scatter lists of getReadBuffers and getWriteBuffers. An `iovec` is the place
-- of a block behind the one that the list starts from, an offset in it, and a length.
use sylar_leo.Base.{
  ℕ, zero, suc, ◌+◌, ◌-◌, ◌/◌, ◌%◌, ◌≤◌, ◌<◌, ◌≡◌, refl, sym, ap, ◌∙◌, true, Option, none, some,
  List, [], ◌∷◌, ◌++◌, arith, ltb, leb, ◌==◌, if◌then◌else◌, length, take, drop, append-nil,
  take_all, Bool-cases, inl, inr,
}
use mathlib.Core.Option
use sylar_leo.ByteArray.{ByteArray, read_loop, get_read_size, add_capacity}
use sylar_leo.ByteArray.Validity.{IsValid, unread}
use sylar_leo.ByteArray.Reading.{read_loop-unread, length-unread}

pub record Iovec : Type 0 where
  pub block : ℕ
  pub offset : ℕ
  pub len : ℕ

abbrev pub next : List Iovec → List Iovec
next [] = []
next (v ∷ vs) = record v { block = suc v.block } ∷ next vs

-- The loop over the blocks: `none` where the null pointer is read.
unfoldable pub buffers_loop : List (List ℕ) → (npos len : ℕ) → Option (List Iovec)
buffers_loop [] npos n = none
buffers_loop (node ∷ nodes) npos n =
    let ncap = length node - npos in
    let rest : Option (List Iovec) = elim (buffers_loop nodes 0 (n - ncap)) [
      | none ↦ none
      | some vs ↦ some (record { block = 0; offset = npos; len = ncap } ∷ next vs)
    ] in
    if n == 0
    then some []
    else if leb n ncap
    then some (record { block = 0; offset = npos; len = n } ∷ [])
    else rest

-- `len > getReadSize() ? getReadSize() : len`.
abbrev pub clamped : ℕ → ByteArray → ℕ
clamped len b = if ltb (get_read_size b) len then get_read_size b else len

-- The buffers from the block of `m_cur` on.
unfoldable pub get_read_buffers : ℕ → ByteArray → Option (List Iovec)
unfolding buffers_loop
get_read_buffers len b =
    let from_cur : Option (List Iovec) = elim b.cur [
      | none ↦ none
      | some i ↦ buffers_loop (drop i b.chain) (b.position % b.base_size) (clamped len b)
    ] in
    if clamped len b == 0 then some [] else from_cur

-- The buffers from the block of `position` on, for which `m_cur` is not looked at.
pub get_read_buffers_at : (len position : ℕ) → ByteArray → Option (List Iovec)
unfolding buffers_loop
get_read_buffers_at len position b =
    if clamped len b == 0
    then some []
    else buffers_loop (drop (position / b.base_size) b.chain) (position % b.base_size)
        (clamped len b)

unfoldable pub get_write_buffers : ℕ → ByteArray → ByteArray × Option (List Iovec)
unfolding buffers_loop
get_write_buffers len b =
    let b' = add_capacity len b in
    let from_cur : Option (List Iovec) = elim b'.cur [
      | none ↦ none
      | some i ↦ buffers_loop (drop i b'.chain) (b'.position % b'.base_size) len
    ] in
    if len == 0 then (b, some []) else (b', from_cur)

-- The block at a place.
pub node_at : ℕ → List (List ℕ) → List ℕ
node_at i [] = []
node_at zero (node ∷ nodes) = node
node_at (suc i) (node ∷ nodes) = node_at i nodes

-- The bytes that a reader of the buffers sees.
unfoldable pub gather : List (List ℕ) → List Iovec → List ℕ
unfolding node_at
gather nodes [] = []
gather nodes (v ∷ vs) = take v.len (drop v.offset (node_at v.block nodes)) ++ gather nodes vs

gather-next :
    (node : List ℕ) (nodes : List (List ℕ)) (vs : List Iovec)
    → gather (node ∷ nodes) (next vs) ≡ gather nodes vs
unfolding gather node_at
gather-next node nodes [] = refl
gather-next node nodes (v ∷ vs) =
    ap (λ l. take v.len (drop v.offset (node_at v.block nodes)) ++ l) (gather-next node nodes vs)

-- Buffers where the loop of `read` copies, that hold what it copies.
data Gathered (nodes : List (List ℕ)) : Option (List ℕ × ℕ) → Option (List Iovec) → Type 0 where
  neither : Gathered nodes none none
  both :
      {bytes : List ℕ} {steps : ℕ} {vs : List Iovec}
      → gather nodes vs ≡ bytes
      → Gathered nodes (some (bytes, steps)) (some vs)

Gathered-next :
    (node : List ℕ) (nodes : List (List ℕ)) (npos : ℕ) (r : Option (List ℕ × ℕ))
    (vs : Option (List Iovec))
    → Gathered nodes r vs
    → Gathered
        (node ∷ nodes)
        (Option.map {B = List ℕ × ℕ}
          (λ p. (take (length node - npos) (drop npos node) ++ p.0, suc p.1))
          r)
        (elim vs [
          | none ↦ none
          | some us ↦ some (record { block = 0; offset = npos; len = length node - npos } ∷ next us)
        ])
unfolding gather node_at
Gathered-next node nodes npos _ _ neither = neither
Gathered-next node nodes npos _ _ (both {vs = us} e) =
    both (ap (λ l. take (length node - npos) (drop npos node) ++ l) (gather-next node nodes us ∙ e))

buffers_loop-Gathered :
    (nodes : List (List ℕ)) (npos n : ℕ)
    → Gathered nodes (read_loop nodes npos n) (buffers_loop nodes npos n)
unfolding read_loop buffers_loop gather node_at
buffers_loop-Gathered [] npos n = neither
buffers_loop-Gathered (node ∷ nodes) npos n = elim (Bool-cases (n == 0)) [
  | inl nothing ↦ rw nothing (both refl)
  | inr more ↦ elim (Bool-cases (leb n (length node - npos))) [
    | inl here ↦ rw (more, here) (both (append-nil (take n (drop npos node))))
    | inr beyond ↦
        rw (more, beyond)
          (Gathered-next node nodes npos (read_loop nodes 0 (n - (length node - npos)))
            (buffers_loop nodes 0 (n - (length node - npos)))
            (buffers_loop-Gathered nodes 0 (n - (length node - npos))))
  ]
]

Gathered-bytes :
    (nodes : List (List ℕ)) (r : Option (List ℕ × ℕ)) (vs : Option (List Iovec)) (bytes : List ℕ)
    (steps : ℕ)
    → Gathered nodes r vs
    → r ≡ some (bytes, steps)
    → (us : List Iovec) × (vs ≡ some us) × (gather nodes us ≡ bytes)
Gathered-bytes nodes _ _ bytes steps neither h = absurd (ground (arith, h))
Gathered-bytes nodes _ _ bytes steps (both {bytes = old} {vs = us} e) h =
    (us, refl, e ∙ ground (arith, h))

-- There are buffers where `read` can copy, and they hold what it copies.
pub buffers_loop-read_loop :
    (nodes : List (List ℕ)) (npos n : ℕ) (bytes : List ℕ) (steps : ℕ)
    → read_loop nodes npos n ≡ some (bytes, steps)
    → (vs : List Iovec) × (buffers_loop nodes npos n ≡ some vs) × (gather nodes vs ≡ bytes)
buffers_loop-read_loop nodes npos n bytes steps e =
    Gathered-bytes nodes (read_loop nodes npos n) (buffers_loop nodes npos n) bytes steps
      (buffers_loop-Gathered nodes npos n) e

clamped_le : (len : ℕ) (b : ByteArray) → IsValid b → b.position + clamped len b ≤ b.size
clamped_le len b v = elim (Bool-cases (ltb (get_read_size b) len)) [
  | inl longer ↦ rw longer (omega (arith, v.position_le))
  | inr fits ↦ rw fits (ground (arith, fits, v.position_le))
]

take-clamped :
    (len : ℕ) (b : ByteArray) → IsValid b → take (clamped len b) (unread b) ≡ take len (unread b)
take-clamped len b v = elim (Bool-cases (ltb (get_read_size b) len)) [
  | inl longer ↦ rw longer (
      take_all (get_read_size b) (unread b) (omega (arith, length-unread b v))
      ∙ sym (take_all len (unread b) (ground (arith, longer, length-unread b v))))
  | inr fits ↦ rw fits refl
]

-- On a valid ByteArray whose position is not the end of the last block, for any length: the buffers of
-- `getReadBuffers` exist, and hold in their order the bytes that are unread, up to that length.
pub get_read_buffers_lem :
    (len : ℕ) (b : ByteArray)
    → IsValid b
    → b.position < b.capacity
    → (vs : List Iovec) × (get_read_buffers len b ≡ some vs)
      × (gather (drop (b.position / b.base_size) b.chain) vs ≡ take len (unread b))
unfolding get_read_buffers gather
get_read_buffers_lem len b v inside =
    let here : b.cur ≡ some (b.position / b.base_size) = ground (arith, v.at_cur) in
    let nodes = drop (b.position / b.base_size) b.chain in
    let npos = b.position % b.base_size in
    let n = clamped len b in
    let (steps, copied) = read_loop-unread n b v (clamped_le len b v) inside in
    let (vs, e, g) =
      Gathered-bytes nodes (read_loop nodes npos n) (buffers_loop nodes npos n) (take n (unread b))
        steps (buffers_loop-Gathered nodes npos n) copied in
    elim (Bool-cases (clamped len b == 0)) [
      | inl nothing ↦ (
        [],
        rw (get_read_buffers, nothing) refl,
        ap (λ k. take k (unread b)) (sym (none_left nothing)) ∙ take-clamped len b v,
      )
      | inr more ↦ (vs, rw (get_read_buffers, more, here) e, g ∙ take-clamped len b v)
    ]
  where
    none_left : (clamped len b == 0) ≡ true → clamped len b ≡ 0
    none_left h = ground (arith, h)
