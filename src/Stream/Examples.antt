-- ===== src/Stream/Examples.antt =====
-- A stream that gives and takes one byte at a time: its state is what is still to come.
use sylar_leo.Base.{ℕ, zero, suc, arith, [], ◌∷◌, ◌++◌, length}
use sylar_leo.Base.Text.{Text, codes}
use sylar_leo.Stream.{Reply, bytes, stop, Taken, took, refused, write_fix_size}
use sylar_leo.Stream.Fixed.{
  Partial, some_bytes, no_bytes, Accepts, some_taken, none_taken, Written, write_fix_size_lem,
}

abbrev read_one : Text → ℕ → Text × Reply
read_one s zero = (s, stop)
read_one [] (suc left) = ([], stop)
read_one (c ∷ s) (suc left) = (s, bytes (c ∷ []))

read_one-Partial : (s : Text) (left : ℕ) → Partial left (read_one s left).1
read_one-Partial s zero = no_bytes
read_one-Partial [] (suc left) = no_bytes
read_one-Partial (c ∷ s) (suc left) = some_bytes (omega arith) (omega arith)

abbrev write_one : Text → Text → Text × Taken
write_one s [] = (s, refused)
write_one s (c ∷ buffer) = (s ++ c ∷ [], took 1)

write_one-Accepts : (s buffer : Text) → Accepts (length buffer) (write_one s buffer).1
write_one-Accepts s [] = none_taken
write_one-Accepts s (c ∷ buffer) = some_taken (omega arith) (omega arith)

write_fix_size_lem_example : Written (codes "abc") (write_fix_size write_one 3 [] (codes "abc"))
write_fix_size_lem_example =
    write_fix_size_lem write_one write_one-Accepts 3 [] (codes "abc") (omega arith)
