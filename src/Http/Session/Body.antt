-- ===== src/Http/Session/Body.antt =====
-- That the body of a request is what the peer sent behind its header.
use sylar_leo.Base.{
  ℕ, ◌-◌, ◌≤◌, ◌<◌, ◌≡◌, sym, ap, ◌∙◌, Option, none, some, [], ◌++◌, append_assoc, arith, leb,
  length, length-append, length-take, take, drop, take-append-drop, Bool-cases, inl, inr,
}
use sylar_leo.Base.Text.{Text}
use sylar_leo.Stream.{Reply, Run, read_fix_size}
use sylar_leo.Stream.Fixed.{
  Partial, Read, all_read, cut, read_fix_size_lem, Delivers, Kept, kept, read_fix_size-Kept,
}
use sylar_leo.Http.Session.{after_read, recv_body}

-- What `recv_body` leaves of the bytes that were to come.
pub data Received {ℓ} {S : Type ℓ} (content : S → Text) (s : S) (size : ℕ) (data_left : Text)
    : S × Option Text → Type ℓ where
  body :
      {s' : S} {b : Text} (unused : Text)
      → length b ≡ size
      → data_left ++ content s ≡ b ++ (unused ++ content s')
      → Received content s size data_left (s', some b)
  closed : {s' : S} → length data_left < size → Received content s size data_left (s', none)

Received-rest {ℓ} :
    {S : Type ℓ} (content : S → Text) (s : S) (size : ℕ) (data_left : Text) (run : Run S)
    → length data_left < size
    → Read (size - length data_left) run
    → Kept content s run
    → Received content s size data_left (after_read data_left s run)
unfolding after_read
Received-rest content s size data_left _ h (all_read {s = s'} {buffer} e) (kept k) =
    let joined = length-append data_left buffer in
    body [] (omega (arith, joined, e, h))
      (ap (λ x. data_left ++ x) k ∙ sym (append_assoc data_left buffer (content s')))
Received-rest content s size data_left _ h (cut e) k = closed h

-- Where each `read` gives the bytes that come next, at least one and no more than asked for: the body of
-- a request is exactly the `Content-Length` bytes behind its header, however the peer's bytes are cut
-- into reads. The connection is closed only where not all of them were in the buffer yet.
pub recv_body_lem {ℓ} :
    {S : Type ℓ} (content : S → Text) (read : S → ℕ → S × Reply)
    → ((s : S) (left : ℕ) → Delivers content s (read s left))
    → ((s : S) (left : ℕ) → Partial left (read s left).1)
    → (s : S) (size : ℕ) (data_left : Text)
    → Received content s size data_left (recv_body read s size data_left)
unfolding recv_body
recv_body_lem content read delivers partial s size data_left =
    elim (Bool-cases (leb size (length data_left))) [
      | inl enough ↦
          let most : size ≤ length data_left = ground (arith, enough) in
          let len = length-take size data_left in
          rw enough (
            body (drop size data_left) (omega (arith, len, most)) (
              ap (λ x. x ++ content s) (sym (take-append-drop size data_left))
              ∙ append_assoc (take size data_left) (drop size data_left) (content s)))
      | inr more ↦
          let left = size - length data_left in
          rw more (
            Received-rest content s size data_left (read_fix_size read left s left)
              (ground (arith, more)) (read_fix_size_lem read partial left s left (omega arith))
              (read_fix_size-Kept content read delivers left s left))
    ]
