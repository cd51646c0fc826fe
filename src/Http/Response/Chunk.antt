-- ===== src/Http/Response/Chunk.antt =====
-- That the content of a chunk is what the peer sent for it.
use sylar_leo.Base.{
  ℕ, ◌^◌, refl, lt→ltb, ◌+◌, ◌-◌, min, ◌≤◌, ◌<◌, ◌≡◌, sym, ap, ◌∙◌, none, some, ◌++◌, append_assoc,
  arith, leb, length, length-append, length-take, length-drop, take, drop, take-append-drop,
  drop-drop, Bool-cases, inl, inr,
}
use sylar_leo.Base.Text.{Text}
use sylar_leo.Stream.{Reply, Run, read_fix_size}
use sylar_leo.Stream.Fixed.{
  Partial, some_bytes, no_bytes, Read, all_read, cut, read_fix_size_lem, Delivers, Kept, kept,
  read_fix_size-Kept,
}
use sylar_leo.Http.Response.{Receiving, read_some, cut_end, recv_sized, recv_chunk}

-- What `recv_chunk` leaves of the bytes that were to come: the content of the chunk, the two bytes that end
-- it, and the rest; or not all of them came.
pub data Received {ℓ} {S : Type ℓ} (content : S → Text) (s : S) (size : ℕ) (data_left : Text)
    : Receiving S (Text × Text) → Type ℓ where
  chunk :
      {s' : S} {b left : Text} (line_end : Text)
      → length b ≡ size
      → length line_end ≡ 2
      → data_left ++ content s ≡ b ++ (line_end ++ (left ++ content s'))
      → Received content s size data_left (s', some (b, left))
  closed : {s' : S} → length data_left < size + 2 → Received content s size data_left (s', none)

-- A list in two parts of which the second has two bytes.
split_end : (n : ℕ) (t rest : Text) → t ++ rest ≡ take n t ++ (drop n t ++ rest)
split_end n t rest =
    ap (λ x. x ++ rest) (sym (take-append-drop n t)) ∙ append_assoc (take n t) (drop n t) rest

Received-rest {ℓ} :
    {S : Type ℓ} (content : S → Text) (s : S) (size : ℕ) (data_left : Text) (run : Run S)
    → length data_left < size + 2
    → Read (size + 2 - length data_left) run
    → Kept content s run
    → Received content s size data_left (cut_end s data_left run)
Received-rest content s size data_left _ h (all_read {s = s'} {buffer} e) (kept k) =
    let t = data_left ++ buffer in
    let n = length t - 2 in
    let joined = length-append data_left buffer in
    let front = length-take n t in
    let back = length-drop n t in
    chunk (drop n t) (omega (arith, joined, e, h, front)) (omega (arith, joined, e, h, back)) (
      ap (λ x. data_left ++ x) k
      ∙ sym (append_assoc data_left buffer (content s'))
      ∙ split_end n t (content s'))
Received-rest content s size data_left _ h (cut e) k = closed h

-- Fewer bytes than asked for are also fewer than a larger number.
Partial-min : (left n : ℕ) (r : Reply) → Partial (min left n) r → Partial left r
Partial-min left n _ (some_bytes one most) = some_bytes one (omega (arith, most))
Partial-min left n _ no_bytes = no_bytes

recv_sized-Received {ℓ} :
    {S : Type ℓ} (content : S → Text) (read : S → ℕ → S × Reply) (buff_size : ℕ)
    → ((s : S) (left : ℕ) → Delivers content s (read s left))
    → ((s : S) (left : ℕ) → Partial left (read s left).1)
    → (s : S) (size : ℕ) (data_left : Text)
    → Received content s size data_left (recv_sized read buff_size s size data_left)
recv_sized-Received content read buff_size delivers partial s size data_left =
    elim (Bool-cases (leb (size + 2) (length data_left))) [
      | inl enough ↦
          let most : size + 2 ≤ length data_left = ground (arith, enough) in
          let len = length-take size data_left in
          let tail = drop size data_left in
          let cut_two = length-take 2 tail in
          let rest = length-drop size data_left in
          rw enough (
            chunk (take 2 tail) (omega (arith, len, most)) (omega (arith, cut_two, rest, most)) (
              split_end size data_left (content s)
              ∙ ap (λ x. take size data_left ++ x)
                  (split_end 2 tail (content s)
                    ∙ ap (λ x. take 2 tail ++ (x ++ content s)) (drop-drop 2 size data_left))))
      | inr more ↦
          let left = size + 2 - length data_left in
          let some_read = read_some read buff_size in
          rw more (
            Received-rest content s size data_left (read_fix_size some_read left s left)
              (ground (arith, more))
              (read_fix_size_lem some_read
                (λ s n.
                  Partial-min n buff_size (read s (min n buff_size)).1
                    (partial s (min n buff_size)))
                left s left (omega arith))
              (read_fix_size-Kept content some_read (λ s n. delivers s (min n buff_size)) left s
                left))
    ]

-- For a chunk whose length with its two bytes is below 2^31, where each `read` gives the bytes that come
-- next, at least one and no more than asked for: the content of a chunk is exactly the bytes of its length
-- behind its header, however the peer's bytes are cut into reads; the two bytes behind them are dropped,
-- and what the buffer has behind those is kept. The connection is closed only where not all of them were
-- in the buffer yet.
pub recv_chunk_lem {ℓ} :
    {S : Type ℓ} (content : S → Text) (read : S → ℕ → S × Reply) (buff_size : ℕ)
    → ((s : S) (left : ℕ) → Delivers content s (read s left))
    → ((s : S) (left : ℕ) → Partial left (read s left).1)
    → (s : S) (size : ℕ) (data_left : Text) → size + 2 < 2 ^ 31
    → (r : Receiving S (Text × Text)) × (recv_chunk read buff_size s size data_left ≡ some r)
      × Received content s size data_left r
unfolding recv_chunk
recv_chunk_lem content read buff_size delivers partial s size data_left small = (
  recv_sized read buff_size s size data_left,
  rw (lt→ltb (size + 2) (2 ^ 31) small) refl,
  recv_sized-Received content read buff_size delivers partial s size data_left,
)
