-- ===== src/Stream.antt =====
-- sylar/stream.cpp: the loops that read and write a fixed number of bytes. The virtual `read` and `write`
-- of the stream are parameters, on a state of the stream.
pub mod Fixed
mod Examples
use sylar_leo.Base.{
  ℕ, zero, suc, ◌+◌, ◌-◌, Option, none, some, List, [], ◌∷◌, ◌++◌, length, take, drop,
}
use sylar_leo.Base.Text.{Text}

-- What `read` gives: the bytes it put into the buffer, or 0 and an error.
pub data Reply : Type 0 where
  bytes : Text → Reply
  stop : Reply

-- What `write` gives: how many bytes it took, or 0 and an error.
pub data Taken : Type 0 where
  took : ℕ → Taken
  refused : Taken

-- Whether the function returns `length`, or what the call that failed gave.
pub data Outcome : Type 0 where
  complete stopped : Outcome

abbrev pub Run {ℓ} : Type ℓ → Type ℓ
Run S = Option (S × (Text × Outcome))

-- The bytes of one call, before those of the calls after it.
abbrev pub prepend {ℓ} : {S : Type ℓ} → Text → Run S → Run S
prepend b none = none
prepend b (some (s, (more, r))) = some (s, (b ++ more, r))

-- `readFixSize`, on fuel: the state of the stream, what the buffer has from `offset` on, and the result.
pub read_fix_size {ℓ} :
    {S : Type ℓ} → (read : S → ℕ → S × Reply) → (fuel : ℕ) → S → (left : ℕ) → Run S
read_fix_size read fuel s zero = some (s, ([], complete))
read_fix_size read zero s (suc left) = none
read_fix_size read (suc fuel) s (suc left) =
    let (s', reply) = read s (suc left) in
    elim reply [
      | stop ↦ some (s', ([], stopped))
      | bytes b ↦ prepend b (read_fix_size read fuel s' (suc left - length b))
    ]

-- `writeFixSize`, on fuel: the state of the stream, the bytes it took, and the result.
pub write_fix_size {ℓ} :
    {S : Type ℓ} → (write : S → Text → S × Taken) → (fuel : ℕ) → S → (buffer : Text) → Run S
write_fix_size write fuel s [] = some (s, ([], complete))
write_fix_size write zero s (c ∷ buffer) = none
write_fix_size write (suc fuel) s (c ∷ buffer) =
    let (s', taken) = write s (c ∷ buffer) in
    elim taken [
      | refused ↦ some (s', ([], stopped))
      | took n ↦ prepend (take n (c ∷ buffer)) (write_fix_size write fuel s' (drop n (c ∷ buffer)))
    ]
