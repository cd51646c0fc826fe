-- ===== src/Http/Session/Examples.antt =====
-- A body of four bytes, of which two are in the buffer and two come in reads of one byte.
use sylar_leo.Base.{ℕ, zero, suc, refl, arith, [], ◌∷◌}
use sylar_leo.Base.Text.{Text, codes}
use sylar_leo.Stream.{Reply, bytes, stop}
use sylar_leo.Stream.Fixed.{Partial, some_bytes, no_bytes, Delivers, given, ended}
use sylar_leo.Http.Session.{recv_body}
use sylar_leo.Http.Session.Body.{Received, recv_body_lem}

abbrev read_one : Text → ℕ → Text × Reply
read_one s zero = (s, stop)
read_one [] (suc left) = ([], stop)
read_one (c ∷ s) (suc left) = (s, bytes (c ∷ []))

read_one-Partial : (s : Text) (left : ℕ) → Partial left (read_one s left).1
read_one-Partial s zero = no_bytes
read_one-Partial [] (suc left) = no_bytes
read_one-Partial (c ∷ s) (suc left) = some_bytes (omega arith) (omega arith)

read_one-Delivers : (s : Text) (left : ℕ) → Delivers (λ t. t) s (read_one s left)
read_one-Delivers s zero = ended refl
read_one-Delivers [] (suc left) = ended refl
read_one-Delivers (c ∷ s) (suc left) = given refl

recv_body_lem_example :
    Received
      (λ t. t)
      (codes "cdef")
      4
      (codes "ab")
      (recv_body read_one (codes "cdef") 4 (codes "ab"))
recv_body_lem_example =
    recv_body_lem (λ t. t) read_one read_one-Delivers read_one-Partial (codes "cdef") 4 (codes "ab")
