-- ===== src/Http/Response/Examples.antt =====
-- A chunk of four bytes, of which two are in the buffer and the others come in reads of one byte.
use sylar_leo.Base.{ℕ, zero, suc, ◌≡◌, refl, arith, some, [], ◌∷◌}
use sylar_leo.Base.Text.{Text, codes}
use sylar_leo.Stream.{Reply, bytes, stop}
use sylar_leo.Stream.Fixed.{Partial, some_bytes, no_bytes, Delivers, given, ended}
use sylar_leo.Http.Response.{Receiving, recv_chunk}
use sylar_leo.Http.Response.Chunk.{Received, recv_chunk_lem}

abbrev next_byte : Text → ℕ → Text × Reply
next_byte s zero = (s, stop)
next_byte [] (suc left) = ([], stop)
next_byte (c ∷ s) (suc left) = (s, bytes (c ∷ []))

next_byte-Partial : (s : Text) (left : ℕ) → Partial left (next_byte s left).1
next_byte-Partial s zero = no_bytes
next_byte-Partial [] (suc left) = no_bytes
next_byte-Partial (c ∷ s) (suc left) = some_bytes (omega arith) (omega arith)

next_byte-Delivers : (s : Text) (left : ℕ) → Delivers (λ t. t) s (next_byte s left)
next_byte-Delivers s zero = ended refl
next_byte-Delivers [] (suc left) = ended refl
next_byte-Delivers (c ∷ s) (suc left) = given refl

recv_chunk_lem_example :
    (r : Receiving Text (Text × Text)) × (recv_chunk next_byte 100 (codes "cd--0") 4 (codes "ab")
      ≡ some r)
    × Received (λ t. t) (codes "cd--0") 4 (codes "ab") r
recv_chunk_lem_example =
    recv_chunk_lem (λ t. t) next_byte 100 next_byte-Delivers next_byte-Partial (codes "cd--0") 4
      (codes "ab") (omega arith)
