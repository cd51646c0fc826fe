-- ===== src/Stream/Fixed.antt =====
-- What the two loops promise of a stream that takes part of what it is asked for.
use sylar_leo.Base.{
  ℕ, zero, suc, ◌-◌, ◌≤◌, ◌≡◌, refl, sym, ap, subst, ◌∙◌, none, some, [], ◌∷◌, ◌++◌, append_assoc,
  arith, length, length-append, take, drop, length-drop, take-append-drop,
}
use sylar_leo.Base.Text.{Text}
use sylar_leo.Stream.{
  Reply, bytes, stop, Taken, took, refused, Outcome, complete, stopped, Run, prepend, read_fix_size,
  write_fix_size,
}

-- A reply with at least one byte and no more than asked for.
pub data Partial (left : ℕ) : Reply → Type 0 where
  some_bytes : {b : Text} → 1 ≤ length b → length b ≤ left → Partial left (bytes b)
  no_bytes : Partial left stop

-- What the loop leaves: all that was asked for, or less.
pub data Read {ℓ} {S : Type ℓ} (left : ℕ) : Run S → Type ℓ where
  all_read :
      {s : S} {buffer : Text} → length buffer ≡ left → Read left (some (s, (buffer, complete)))
  cut : {s : S} {buffer : Text} → length buffer ≤ left → Read left (some (s, (buffer, stopped)))

Read-prepend {ℓ} :
    {S : Type ℓ} (left : ℕ) (b : Text) (r : Run S)
    → length b ≤ left
    → Read (left - length b) r
    → Read left (prepend b r)
Read-prepend left b _ h (all_read {s} {buffer} e) =
    let joined = length-append b buffer in all_read (omega (arith, e, joined, h))
Read-prepend left b _ h (cut {s} {buffer} e) =
    let joined = length-append b buffer in cut (omega (arith, e, joined, h))

-- Where each `read` that does not fail gives at least one byte and no more than asked for: `readFixSize`
-- ends after at most `length` reads, returns `length` exactly where it filled that many bytes, and
-- otherwise stopped at a read that failed.
pub read_fix_size_lem {ℓ} :
    {S : Type ℓ} (read : S → ℕ → S × Reply)
    → ((s : S) (left : ℕ) → Partial left (read s left).1)
    → (fuel : ℕ) (s : S) (left : ℕ) → left ≤ fuel
    → Read left (read_fix_size read fuel s left)
unfolding read_fix_size
read_fix_size_lem read partial fuel s zero h = all_read refl
read_fix_size_lem read partial zero s (suc left) h = absurd (omega (arith, h))
read_fix_size_lem {S = S} read partial (suc fuel) s (suc left) h =
    go (read s (suc left)) (partial s (suc left))
      (λ s' rest hr. read_fix_size_lem read partial fuel s' rest hr)
  where
    go :
        (r : S × Reply)
        → Partial (suc left) r.1
        → ((s' : S) (rest : ℕ) → rest ≤ fuel → Read rest (read_fix_size read fuel s' rest))
        → Read (suc left) (elim r.1 [
          | stop ↦ some (r.0, ([], stopped))
          | bytes b ↦ prepend b (read_fix_size read fuel r.0 (suc left - length b))
        ])
    go (s', stop) no_bytes again = cut (omega arith)
    go (s', bytes b) (some_bytes one most) again =
        Read-prepend (suc left) b (read_fix_size read fuel s' (suc left - length b)) most
          (again s' (suc left - length b) (omega (arith, h, one)))

-- A `write` that takes at least one byte and no more than it is given.
pub data Accepts (size : ℕ) : Taken → Type 0 where
  some_taken : {n : ℕ} → 1 ≤ n → n ≤ size → Accepts size (took n)
  none_taken : Accepts size refused

-- What the loop leaves: all bytes of the buffer in order, or the first of them.
pub data Written {ℓ} {S : Type ℓ} (buffer : Text) : Run S → Type ℓ where
  all_written : {s : S} → Written buffer (some (s, (buffer, complete)))
  first_written :
      {s : S} (front back : Text)
      → front ++ back ≡ buffer
      → Written buffer (some (s, (front, stopped)))

Written-prepend {ℓ} :
    {S : Type ℓ} (n : ℕ) (buffer : Text) (r : Run S)
    → Written (drop n buffer) r
    → Written buffer (prepend (take n buffer) r)
Written-prepend n buffer _ (all_written {s}) =
    subst (λ b. Written buffer (some (s, (b, complete)))) (sym (take-append-drop n buffer))
      all_written
Written-prepend n buffer _ (first_written front back e) =
    first_written (take n buffer ++ front) back (
      append_assoc (take n buffer) front back
      ∙ ap (λ b. take n buffer ++ b) e
      ∙ take-append-drop n buffer)

-- Where each `write` that does not fail takes at least one byte and no more than it is given:
-- `writeFixSize` ends after at most as many writes as there are bytes, the stream has taken all bytes in
-- order, none twice, where it returns `length`, and the first of them where a write failed.
pub write_fix_size_lem {ℓ} :
    {S : Type ℓ} (write : S → Text → S × Taken)
    → ((s : S) (buffer : Text) → Accepts (length buffer) (write s buffer).1)
    → (fuel : ℕ) (s : S) (buffer : Text) → length buffer ≤ fuel
    → Written buffer (write_fix_size write fuel s buffer)
unfolding write_fix_size
write_fix_size_lem write accepts fuel s [] h = all_written
write_fix_size_lem write accepts zero s (c ∷ buffer) h = absurd (omega (arith, h))
write_fix_size_lem {S = S} write accepts (suc fuel) s (c ∷ buffer) h =
    go (write s (c ∷ buffer)) (accepts s (c ∷ buffer))
      (λ s' rest hr. write_fix_size_lem write accepts fuel s' rest hr)
  where
    go :
        (r : S × Taken)
        → Accepts (suc (length buffer)) r.1
        → ((s' : S) (rest : Text)
            → length rest ≤ fuel
            → Written rest (write_fix_size write fuel s' rest))
        → Written (c ∷ buffer) (elim r.1 [
          | refused ↦ some (r.0, ([], stopped))
          | took n ↦
              prepend (take n (c ∷ buffer)) (write_fix_size write fuel r.0 (drop n (c ∷ buffer)))
        ])
    go (s', refused) none_taken again = first_written [] (c ∷ buffer) refl
    go (s', took n) (some_taken one most) again =
        let shorter = length-drop n (c ∷ buffer) in
        Written-prepend n (c ∷ buffer) (write_fix_size write fuel s' (drop n (c ∷ buffer)))
          (again s' (drop n (c ∷ buffer)) (omega (arith, h, one, shorter)))

-- A stream with its bytes still to come: `read` gives the first of them.
pub data Delivers {ℓ} {S : Type ℓ} (content : S → Text) (s : S) : S × Reply → Type ℓ where
  given : {s' : S} {b : Text} → content s ≡ b ++ content s' → Delivers content s (s', bytes b)
  ended : {s' : S} → content s ≡ content s' → Delivers content s (s', stop)

pub data Kept {ℓ} {S : Type ℓ} (content : S → Text) (s : S) : Run S → Type ℓ where
  kept :
      {s' : S} {buffer : Text} {r : Outcome}
      → content s ≡ buffer ++ content s'
      → Kept content s (some (s', (buffer, r)))
  unfinished : Kept content s none

Kept-prepend {ℓ} :
    {S : Type ℓ} (content : S → Text) (s s' : S) (b : Text) (run : Run S)
    → content s ≡ b ++ content s'
    → Kept content s' run
    → Kept content s (prepend b run)
Kept-prepend content s s' b _ e (kept {s' = t} {buffer} h) =
    kept (e ∙ ap (λ x. b ++ x) h ∙ sym (append_assoc b buffer (content t)))
Kept-prepend content s s' b _ e unfinished = unfinished

-- Where each `read` gives the bytes that come next: `readFixSize` gives the bytes that come next, and
-- leaves those behind them.
pub read_fix_size-Kept {ℓ} :
    {S : Type ℓ} (content : S → Text) (read : S → ℕ → S × Reply)
    → ((s : S) (left : ℕ) → Delivers content s (read s left))
    → (fuel : ℕ) (s : S) (left : ℕ) → Kept content s (read_fix_size read fuel s left)
unfolding read_fix_size
read_fix_size-Kept content read delivers fuel s zero = kept refl
read_fix_size-Kept content read delivers zero s (suc left) = unfinished
read_fix_size-Kept {S = S} content read delivers (suc fuel) s (suc left) =
    go (read s (suc left)) (delivers s (suc left))
      (λ s' rest. read_fix_size-Kept content read delivers fuel s' rest)
  where
    go :
        (r : S × Reply)
        → Delivers content s r
        → ((s' : S) (rest : ℕ) → Kept content s' (read_fix_size read fuel s' rest))
        → Kept content s (elim r.1 [
          | stop ↦ some (r.0, ([], stopped))
          | bytes b ↦ prepend b (read_fix_size read fuel r.0 (suc left - length b))
        ])
    go (s', stop) (ended e) again = kept e
    go (s', bytes b) (given e) again =
        Kept-prepend content s s' b (read_fix_size read fuel s' (suc left - length b)) e
          (again s' (suc left - length b))
