-- ===== src/Http/Session.antt =====
-- sylar/http/http_session.cpp: how a request is received. The parser, which a generator makes, and the
-- `read` of the socket are parameters.
pub mod Body
mod Examples
use sylar_leo.Base.{
  ℕ, zero, suc, ◌-◌, Bool, true, false, Option, none, some, List, [], ◌∷◌, ◌++◌, leb, ltb, ◌==◌,
  if◌then◌else◌, length, take, drop,
}
use sylar_leo.Base.Text.{Text}
use sylar_leo.Stream.{Reply, bytes, stop, Outcome, complete, stopped, Run, read_fix_size}
use sylar_leo.Http.Message.{HttpRequest, init}

pub record HttpRequestParser {ℓ} (P : Type ℓ) : Type ℓ where
  -- The parser with what it read, and how many bytes that were; it moves the others to the front.
  pub execute : P → Text → P × ℕ
  pub has_error : P → Bool
  pub is_finished : P → Bool
  -- 0 where the header has no length or one that is not positive.
  pub content_length : P → ℕ
  pub request : P → HttpRequest

-- The first part of `recvRequest`, on fuel for the reads: `none` where it goes on reading, else where
-- the connection is not closed the parser and what the buffer has behind the header.
pub recv_header {ℓ κ} :
    {P : Type ℓ} {S : Type κ}
    → HttpRequestParser P
    → (read : S → ℕ → S × Reply) → (buff_size fuel : ℕ) → S
    → P
    → (data_left : Text) → Option (S × Option (P × Text))
recv_header ops read buff_size zero s p data_left = none
recv_header ops read buff_size (suc fuel) s p data_left =
    let (s', reply) = read s (buff_size - length data_left) in
    elim reply [
      | stop ↦ some (s', none)
      | bytes b ↦
          let (p', nparse) = ops.execute p (data_left ++ b) in
          let offset = drop nparse (data_left ++ b) in
          let again = recv_header ops read buff_size fuel s' p' offset in
          if ops.has_error p'
          then some (s', none)
          else if length offset == buff_size
          then some (s', none)
          else if ops.is_finished p'
          then some (s', some (p', offset))
          else again
    ]

-- What a body of `size` bytes is put together from: what the buffer has, and `readFixSize`. `none` where
-- the connection is closed.
after_read {ℓ} : {S : Type ℓ} → Text → S → Run S → S × Option Text
after_read front s none = (s, none)
after_read front s (some (s', (more, complete))) = (s', some (front ++ more))
after_read front s (some (s', (more, stopped))) = (s', none)

pub recv_body {ℓ} :
    {S : Type ℓ}
    → (read : S → ℕ → S × Reply) → S
    → (size : ℕ) → (data_left : Text) → S × Option Text
unfolding after_read
recv_body read s size data_left =
    if leb size (length data_left)
    then (s, some (take size data_left))
    else after_read data_left s
        (read_fix_size read (size - length data_left) s (size - length data_left))

-- `recvRequest`.
pub recv_request {ℓ κ} :
    {P : Type ℓ} {S : Type κ}
    → HttpRequestParser P
    → (read : S → ℕ → S × Reply) → (buff_size fuel : ℕ) → S
    → P
    → Option (S × Option HttpRequest)
unfolding recv_header recv_body
recv_request ops read buff_size fuel s p = elim (recv_header ops read buff_size fuel s p []) [
  | none ↦ none
  | some (s', none) ↦ some (s', none)
  | some (s', some (p', data_left)) ↦
      let (s'', body) = recv_body read s' (ops.content_length p') data_left in
      if ops.content_length p' == 0 then some (s', some (init (ops.request p'))) else elim body [
        | none ↦ some (s'', none)
        | some b ↦ some (s'', some (init (record (ops.request p') { body = b })))
      ]
]
