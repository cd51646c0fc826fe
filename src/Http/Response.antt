-- ===== src/Http/Response.antt =====
-- sylar/http/http_connection.cpp: how a response is received. The generated parser, the `read` of the socket
-- and zlib are parameters.
pub mod Chunk
mod Examples
use sylar_leo.Base.{
  ℕ, ◌^◌, zero, suc, ◌+◌, ◌-◌, min, Bool, true, false, ◌||◌, Option, none, some, List, [], ◌∷◌,
  ◌++◌, leb, ltb, ◌==◌, if◌then◌else◌, length, take, drop,
}
use sylar_leo.Base.Text.{Text, codes, text_eq, is_nil}
use sylar_leo.Util.{to_lower}
use sylar_leo.Stream.{Reply, bytes, stop, Outcome, complete, stopped, Run, read_fix_size}
use sylar_leo.Http.Headers.{lookup}
use sylar_leo.Http.Message.{HttpResponse, or_default}
use sylar_leo.Http.Session.{recv_body}

pub record HttpResponseParser {ℓ} (P : Type ℓ) : Type ℓ where
  -- The parser with what it read, and how many bytes that were; it moves the others to the front. The
  -- flag says that the header of a chunk is read.
  pub execute : P → (chunk : Bool) → Text → P × ℕ
  pub has_error : P → Bool
  pub is_finished : P → Bool
  pub chunked : P → Bool
  pub chunks_done : P → Bool
  -- The length of a chunk, an `int`, by its 32 bits.
  pub content_len : P → ℕ
  -- 0 where the header has no length or one that is not positive.
  pub content_length : P → ℕ
  pub response : P → HttpResponse

-- `none` where the connection is closed.
abbrev pub Receiving {ℓ κ} : Type ℓ → Type κ → Type (ℓ ⊔ κ)
Receiving S A = S × Option A

-- The reads of the rest of a chunk ask for no more than the buffer holds.
abbrev pub read_some {ℓ} :
    {S : Type ℓ} → (read : S → ℕ → S × Reply) → (buff_size : ℕ) → S → ℕ → S × Reply
read_some read buff_size s left = read s (min left buff_size)

-- A chunk that was read to its end, without the two bytes behind it, and an empty buffer.
abbrev pub cut_end {ℓ} : {S : Type ℓ} → S → Text → Run S → Receiving S (Text × Text)
cut_end s front none = (s, none)
cut_end s front (some (s', (more, complete))) =
    (s', some (take (length (front ++ more) - 2) (front ++ more), []))
cut_end s front (some (s', (more, stopped))) = (s', none)

-- A chunk whose length is an `int` that is not negative, with `content_len + 2`.
abbrev pub recv_sized {ℓ} :
    {S : Type ℓ}
    → (read : S → ℕ → S × Reply) → (buff_size : ℕ) → S
    → (size : ℕ) → (data_left : Text) → Receiving S (Text × Text)
recv_sized read buff_size s size data_left =
    let left = size + 2 - length data_left in
    if leb (size + 2) (length data_left)
    then (s, some (take size data_left, drop (size + 2) data_left))
    else cut_end s data_left (read_fix_size (read_some read buff_size) left s left)

-- The content of a chunk, and what the buffer has behind its end; `size` is the 32 bits of
-- `content_len`. `none`: `content_len + 2` overflows, or `content_len` is negative, where the code goes on
-- with lengths that no string or buffer has.
unfoldable pub recv_chunk {ℓ} :
    {S : Type ℓ}
    → (read : S → ℕ → S × Reply) → (buff_size : ℕ) → S
    → (size : ℕ) → (data_left : Text) → Option (Receiving S (Text × Text))
recv_chunk read buff_size s size data_left =
    let received = recv_sized read buff_size s size data_left in
    if ltb (size + 2) (2 ^ 31) then some received else none

module _ {ℓ κ} {P : Type ℓ} {S : Type κ} (ops : HttpResponseParser P) (read : S → ℕ → S × Reply)
    (buff_size : ℕ) where
  -- The header, on fuel for the reads: the parser and what the buffer has behind the header.
  unfoldable pub recv_header :
      (fuel : ℕ) → S → P → (data_left : Text) → Option (Receiving S (P × Text))
  recv_header zero s p data_left = none
  recv_header (suc fuel) s p data_left =
      let (s', reply) = read s (buff_size - length data_left) in
      elim reply [
        | stop ↦ some (s', none)
        | bytes b ↦
            let (p', nparse) = ops.execute p false (data_left ++ b) in
            let left = drop nparse (data_left ++ b) in
            let again = recv_header fuel s' p' left in
            if ops.has_error p' || length left == buff_size
            then some (s', none)
            else if ops.is_finished p'
            then some (s', some (p', left))
            else again
      ]

  -- What a read puts behind the buffer, where there is one.
  abbrev pub more_data : (needed : Bool) → S → (data_left : Text) → Receiving S Text
  more_data false s data_left = (s, some data_left)
  more_data true s data_left =
      let (s', reply) = read s (buff_size - length data_left) in
      (s', elim reply [ stop ↦ none | bytes b ↦ some (data_left ++ b) ])

  -- The header of a chunk, on fuel for the rounds: `first` is `begin`.
  unfoldable pub recv_chunk_header :
      (fuel : ℕ) → (first : Bool) → S → P → (data_left : Text) → Option (Receiving S (P × Text))
  recv_chunk_header zero first s p data_left = none
  recv_chunk_header (suc fuel) first s p data_left =
      let (s', more) = more_data (if first then is_nil data_left else true) s data_left in
      elim more [
        | none ↦ some (s', none)
        | some d ↦
            let (p', nparse) = ops.execute p true d in
            let left = drop nparse d in
            let again = recv_chunk_header fuel false s' p' left in
            if ops.has_error p' || length left == buff_size
            then some (s', none)
            else if ops.is_finished p'
            then some (s', some (p', left))
            else again
      ]

  -- The chunks, on fuel for them and for the rounds of their headers: the parser and the body. `none` is
  -- also a chunk whose length is no length.
  unfoldable pub recv_chunks :
      (fuel : ℕ) → S → P → (body data_left : Text) → Option (Receiving S (P × Text))
  unfolding recv_chunk_header recv_chunk
  recv_chunks zero s p body data_left = none
  recv_chunks (suc fuel) s p body data_left =
      elim (recv_chunk_header (suc fuel) true s p data_left) [
        | none ↦ none
        | some (s', none) ↦ some (s', none)
        | some (s', some (p', left)) ↦
            elim (recv_chunk read buff_size s' (ops.content_len p') left) [
              | none ↦ none
              | some (s'', none) ↦ some (s'', none)
              | some (s'', some (chunk, left')) ↦
                  let again = recv_chunks fuel s'' p' (body ++ chunk) left' in
                  if ops.chunks_done p' then some (s'', some (p', body ++ chunk)) else again
            ]
      ]

  -- The body, in chunks or of the length of the header.
  unfoldable pub recv_response_body :
      (fuel : ℕ) → S → P → (data_left : Text) → Option (Receiving S (P × Text))
  unfolding recv_chunks
  recv_response_body fuel s p data_left =
      let (s', body) = recv_body read s (ops.content_length p) data_left in
      let plain : Receiving S (P × Text) = elim body [
        | none ↦ (s', none)
        | some b ↦ (s', some (p, b))
      ] in
      if ops.chunked p
      then recv_chunks fuel s p [] data_left
      else if ops.content_length p == 0
      then some (s, some (p, []))
      else some plain

  -- The response with its body, which is unpacked where the header says so.
  unfoldable pub decode_body : (gunzip inflate : Text → Text) → Text → HttpResponse → HttpResponse
  decode_body gunzip inflate body r =
      let encoding = to_lower (or_default (lookup (codes "content-encoding") r.headers) []) in
      if is_nil body
      then r
      else if text_eq encoding (codes "gzip")
      then record r { body = gunzip body }
      else if text_eq encoding (codes "deflate")
      then record r { body = inflate body }
      else record r { body = body }

  -- `recvResponse`.
  unfoldable pub recv_response :
      (gunzip inflate : Text → Text) → (fuel : ℕ) → S → P → Option (Receiving S HttpResponse)
  unfolding recv_header recv_response_body decode_body
  recv_response gunzip inflate fuel s p = elim (recv_header fuel s p []) [
    | none ↦ none
    | some (s', none) ↦ some (s', none)
    | some (s', some (p', left)) ↦ elim (recv_response_body fuel s' p' left) [
      | none ↦ none
      | some (s'', none) ↦ some (s'', none)
      | some (s'', some (p'', body)) ↦
          some (s'', some (decode_body gunzip inflate body (ops.response p'')))
    ]
  ]
