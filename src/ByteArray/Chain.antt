-- ===== src/ByteArray/Chain.antt =====
-- The loops over the blocks, against the flat sequence of bytes that the chain holds.
use sylar_leo.Base.{
  ℕ, suc, ◌+◌, ◌-◌, ◌*◌, ◌/◌, ◌≤◌, ◌<◌, ◌≡◌, refl, ◌∙◌, sym, ap, some, List, [], ◌∷◌, ◌++◌, ◌==◌,
  if◌then◌else◌, length, take, drop, All, flatten, length-append, length-take, length-drop,
  take-append_le, drop-append_le, take-append_add, drop-append_add, append_assoc, take_all,
  drop_all, take-append-drop, take-append, ap₂, drop-drop, drop-append, append-nil, dec_le, dec_lt,
  arith,
}
use sylar_leo.ByteArray.{overwrite, write_loop, read_loop, seek}
use native.Mathlib.Nat.{div-eq-sub-div, div-eq_of_lt, div_self}

abbrev pub AllSized : ℕ → List (List ℕ) → Type 0
AllSized base nodes = All (λ node. length node ≡ base) nodes

pub length-flatten :
    (base : ℕ) (nodes : List (List ℕ))
    → AllSized base nodes
    → length (flatten nodes) ≡ length nodes * base
length-flatten base [] h = omega arith
length-flatten base (node ∷ nodes) h =
    omega (arith, h.0, length-append node (flatten nodes), length-flatten base nodes h.1)

pub length-overwrite :
    (p : ℕ) (buf l : List ℕ) → p + length buf ≤ length l → length (overwrite p buf l) ≡ length l
unfolding overwrite
length-overwrite p buf l h = omega (
  arith,
  length-append (take p l) (buf ++ drop (p + length buf) l),
  length-append buf (drop (p + length buf) l),
  length-take p l,
  length-drop (p + length buf) l,
)

pub drop-overwrite :
    (p : ℕ) (buf l : List ℕ)
    → p ≤ length l
    → drop p (overwrite p buf l) ≡ buf ++ drop (p + length buf) l
unfolding overwrite
drop-overwrite p buf l h =
    ap (λ n. drop n (take p l ++ (buf ++ drop (p + length buf) l))) (omega (arith, length-take p l))
    ∙ drop-append (take p l) (buf ++ drop (p + length buf) l)

-- Two overwrites in a row.
pub overwrite-overwrite :
    (p : ℕ) (xs ys l : List ℕ)
    → p ≤ length l
    → overwrite (p + length xs) ys (overwrite p xs l) ≡ overwrite p (xs ++ ys) l
unfolding overwrite
overwrite-overwrite p xs ys l h =
    ap₂ (λ a c. a ++ (ys ++ c)) front back
    ∙ append_assoc (take p l) xs (ys ++ drop (p + length (xs ++ ys)) l)
    ∙ ap (λ r. take p l ++ r) (sym (append_assoc xs ys (drop (p + length (xs ++ ys)) l)))
  where
    whole : overwrite p xs l ≡ (take p l ++ xs) ++ drop (p + length xs) l
    whole = sym (append_assoc (take p l) xs (drop (p + length xs) l))

    size : length (take p l ++ xs) ≡ p + length xs
    size = omega (arith, length-append (take p l) xs, length-take p l)

    front : take (p + length xs) (overwrite p xs l) ≡ take p l ++ xs
    front =
        ap₂ (λ n r. take n r) (sym size) whole
        ∙ take-append (take p l ++ xs) (drop (p + length xs) l)

    back : drop (p + length xs + length ys) (overwrite p xs l) ≡ drop (p + length (xs ++ ys)) l
    back =
        ap₂ (λ n r. drop n r) (ap (λ (t : ℕ). t + length ys) (sym size)) whole
        ∙ drop-append_add (take p l ++ xs) (drop (p + length xs) l) (length ys)
        ∙ drop-drop (length ys) (p + length xs) l
        ∙ ap (λ n. drop n l) (omega (arith, length-append xs ys))

-- An overwrite inside the first of two lists, and one inside the second.
pub overwrite-append :
    (p : ℕ) (buf xs ys : List ℕ)
    → p + length buf ≤ length xs
    → overwrite p buf (xs ++ ys) ≡ overwrite p buf xs ++ ys
unfolding overwrite
overwrite-append p buf xs ys h = rw (
  take-append_le p xs ys (omega arith),
  drop-append_le (p + length buf) xs ys h,
  append_assoc (take p xs) (buf ++ drop (p + length buf) xs) ys,
  append_assoc buf (drop (p + length buf) xs) ys,
)

pub overwrite-append_after :
    (p : ℕ) (buf xs ys : List ℕ)
    → overwrite (length xs + p) buf (xs ++ ys) ≡ xs ++ overwrite p buf ys
unfolding overwrite
overwrite-append_after p buf xs ys = rw (
  sum_assoc,
  take-append_add xs ys p,
  drop-append_add xs ys (p + length buf),
  append_assoc xs (take p ys) (buf ++ drop (p + length buf) ys),
)
  where
    sum_assoc : length xs + p + length buf ≡ length xs + (p + length buf)
    sum_assoc = omega arith

-- An overwrite across the seam: the first `c` bytes fill up the first list.
pub overwrite-append_across :
    (p c : ℕ) (buf xs ys : List ℕ)
    → p + c ≡ length xs
    → c ≤ length buf
    → overwrite p (take c buf) xs ++ overwrite 0 (drop c buf) ys ≡ overwrite p buf (xs ++ ys)
unfolding overwrite
overwrite-append_across p c buf xs ys h hc =
    rw
      (
        take-append_le p xs ys (omega arith),
        drop_all (p + length (take c buf)) xs (omega (arith, length-take c buf)),
        past,
        drop-append_add xs ys (length (drop c buf)),
        append_assoc (take p xs) (take c buf ++ []) (overwrite_start),
        append-nil (take c buf),
      )
      (ap (λ l. take p xs ++ l) joined)
  where
    past : p + length buf ≡ length xs + length (drop c buf)
    past = omega (arith, length-drop c buf)

    overwrite_start : List ℕ
    overwrite_start = drop c buf ++ drop (0 + length (drop c buf)) ys

    zero_sum : 0 + length (drop c buf) ≡ length (drop c buf)
    zero_sum = omega arith

    joined : take c buf ++ overwrite_start ≡ buf ++ drop (length (drop c buf)) ys
    joined = rw zero_sum (
        sym (append_assoc (take c buf) (drop c buf) _)
        ∙ ap (λ l. l ++ drop (length (drop c buf)) ys) (take-append-drop c buf))

-- What the loop of `write` does to the bytes, and where it leaves `m_cur`.
pub record Wrote (base : ℕ) (nodes : List (List ℕ)) (npos : ℕ) (buf : List ℕ)
    (nodes' : List (List ℕ)) (steps : ℕ) : Type 0 where
  pub result : write_loop nodes npos buf ≡ some (nodes', steps)
  pub sized : AllSized base nodes'
  pub same_length : length nodes' ≡ length nodes
  pub bytes : flatten nodes' ≡ overwrite npos buf (flatten nodes)
  pub lower : steps * base ≤ npos + length buf
  pub upper : npos + length buf < (steps + 1) * base

write_loop_last :
    (base : ℕ) (node : List ℕ) (nodes : List (List ℕ)) (npos : ℕ) (buf : List ℕ)
    → AllSized base (node ∷ nodes)
    → 0 < base
    → npos + length buf ≤ length node
    → (steps : ℕ) × Wrote base (node ∷ nodes) npos buf (overwrite npos buf node ∷ nodes) steps
unfolding write_loop
write_loop_last base node nodes npos buf s pos fits = (
  if length node == npos + length buf then 1 else 0,
  record {
    result = ground arith;
    sized = (length-overwrite npos buf node fits ∙ s.0, s.1);
    same_length = refl;
    bytes = sym (overwrite-append npos buf node (flatten nodes) fits);
    lower = ground (arith, s.0);
    upper = ground (arith, s.0);
  },
)

write_loop_more :
    (base : ℕ) (node : List ℕ) (nodes : List (List ℕ)) (npos : ℕ) (buf : List ℕ)
    (nodes' : List (List ℕ)) (steps : ℕ)
    → AllSized base (node ∷ nodes)
    → npos < base
    → base < npos + length buf
    → Wrote base nodes 0 (drop (length node - npos) buf) nodes' steps
    → Wrote base
        (node ∷ nodes)
        npos
        buf
        (overwrite npos (take (length node - npos) buf) node ∷ nodes')
        (suc steps)
unfolding write_loop
write_loop_more base node nodes npos buf nodes' steps s h more w = record {
  result = ground (arith, s.0, w.result);
  sized = (
    length-overwrite npos _ node (omega (arith, s.0, length-take (length node - npos) buf)) ∙ s.0,
    w.sized,
  );
  same_length = ap suc w.same_length;
  bytes = rw w.bytes (
      overwrite-append_across npos (length node - npos) buf node (flatten nodes)
        (omega (arith, s.0)) (omega (arith, s.0)));
  lower = omega (arith, s.0, w.lower, length-drop (length node - npos) buf);
  upper = omega (arith, s.0, w.upper, length-drop (length node - npos) buf);
}

pub write_loop_total :
    (base : ℕ) (nodes : List (List ℕ)) (npos : ℕ) (buf : List ℕ)
    → AllSized base nodes
    → npos < base
    → 0 < length buf
    → npos + length buf ≤ length nodes * base
    → (nodes' : List (List ℕ)) × (steps : ℕ) × Wrote base nodes npos buf nodes' steps
write_loop_total base [] npos buf s h ne fits = absurd (omega arith)
write_loop_total base (node ∷ nodes) npos buf s h ne fits = elim (dec_le (npos + length buf) base) [
  | yes last ↦
      let (steps, w) =
        write_loop_last base node nodes npos buf s (omega arith) (omega (arith, s.0)) in
      (overwrite npos buf node ∷ nodes, steps, w)
  | no more ↦
      let (nodes', steps, w) =
        write_loop_total base nodes 0 (drop (length node - npos) buf) s.1 (omega arith)
          (omega (arith, s.0, length-drop (length node - npos) buf))
          (omega (arith, s.0, length-drop (length node - npos) buf)) in
      (_, suc steps, write_loop_more base node nodes npos buf nodes' steps s h (omega arith) w)
]

-- What a read loop copies, and where it leaves the block pointer.
pub record Copied (base : ℕ) (nodes : List (List ℕ)) (npos n steps : ℕ) : Type 0 where
  pub result : read_loop nodes npos n ≡ some (take n (drop npos (flatten nodes)), steps)
  pub lower : steps * base ≤ npos + n
  pub upper : npos + n < (steps + 1) * base

-- A read across the seam of two lists.
take-drop-append :
    (p n : ℕ) (xs ys : List ℕ)
    → p ≤ length xs
    → length xs ≤ p + n
    → take (length xs - p) (drop p xs) ++ take (n - (length xs - p)) ys ≡ take n (drop p (xs ++ ys))
take-drop-append p n xs ys h k =
    rw
      (
        drop-append_le p xs ys h,
        take_all (length xs - p) (drop p xs) (omega (arith, length-drop p xs)),
      )
      (sym (
        ap (λ m. take m (drop p xs ++ ys)) split
        ∙ take-append_add (drop p xs) ys (n - (length xs - p))))
  where
    split : n ≡ length (drop p xs) + (n - (length xs - p))
    split = omega (arith, length-drop p xs)

read_loop_last :
    (base : ℕ) (node : List ℕ) (nodes : List (List ℕ)) (npos n : ℕ)
    → AllSized base (node ∷ nodes)
    → npos < base
    → npos + n ≤ base
    → (steps : ℕ) × Copied base (node ∷ nodes) npos n steps
unfolding read_loop
read_loop_last base node nodes npos n s h fits = (
  if n == 0 then 0 else (if length node == npos + n then 1 else 0),
  record {
    result =
        rw
          (
            drop-append_le npos node (flatten nodes) (omega (arith, s.0)),
            take-append_le n (drop npos node) (flatten nodes)
                (omega (arith, s.0, length-drop npos node)),
          )
          (ground (arith, s.0, take_zero (drop npos node)));
    lower = ground (arith, s.0);
    upper = ground (arith, s.0);
  },
)
  where
    take_zero : (l : List ℕ) → take 0 l ≡ []
    take_zero l = refl

read_loop_more :
    (base : ℕ) (node : List ℕ) (nodes : List (List ℕ)) (npos n steps : ℕ)
    → AllSized base (node ∷ nodes)
    → npos < base
    → base < npos + n
    → Copied base nodes 0 (n - (length node - npos)) steps
    → Copied base (node ∷ nodes) npos n (suc steps)
unfolding read_loop
read_loop_more base node nodes npos n steps s h more c = record {
  result =
      rw (← take-drop-append npos n node (flatten nodes) (omega (arith, s.0)) (omega (arith, s.0)))
        (ground (arith, s.0, c.result));
  lower = omega (arith, s.0, c.lower);
  upper = omega (arith, s.0, c.upper);
}

pub read_loop_total :
    (base : ℕ) (nodes : List (List ℕ)) (npos n : ℕ)
    → AllSized base nodes
    → npos < base
    → npos + n ≤ length nodes * base
    → 0 < length nodes
    → (steps : ℕ) × Copied base nodes npos n steps
read_loop_total base [] npos n s h fits ne = absurd (omega arith)
read_loop_total base (node ∷ []) npos n s h fits ne =
    read_loop_last base node [] npos n s h (omega arith)
read_loop_total base (node ∷ next ∷ nodes) npos n s h fits ne = elim (dec_le (npos + n) base) [
  | yes last ↦ read_loop_last base node (next ∷ nodes) npos n s h last
  | no more ↦
      let (steps, c) =
        read_loop_total base (next ∷ nodes) 0 (n - (length node - npos)) s.1 (omega arith)
          (omega (arith, s.0)) (omega arith) in
      (suc steps, read_loop_more base node (next ∷ nodes) npos n steps s h (omega arith) c)
]

-- Within one block the quotient is 0, and 1 at its end.
div_block : (v base : ℕ) → v ≤ base → 0 < base → v / base ≡ (if v == base then 1 else 0)
div_block v base h pos = elim (dec_lt v base) [
  | yes below ↦ div-eq_of_lt below ∙ ground arith
  | no full ↦ let e : v ≡ base = omega arith in ap (λ t. t / base) e ∙ div_self pos ∙ ground arith
]

seek_first :
    (base v : ℕ) (node : List ℕ) (nodes : List (List ℕ))
    → length node ≡ base
    → 0 < base
    → v ≤ base
    → seek (node ∷ nodes) v ≡ some (v / base)
unfolding seek
seek_first base v node nodes s pos h = ground (arith, div_block v base h pos)

pub seek_total :
    (base v : ℕ) (nodes : List (List ℕ))
    → AllSized base nodes
    → 0 < base
    → v ≤ length nodes * base
    → 0 < length nodes
    → seek nodes v ≡ some (v / base)
unfolding seek
seek_total base v [] s pos h ne = absurd (omega arith)
seek_total base v (node ∷ []) s pos h ne = seek_first base v node [] s.0 pos (omega arith)
seek_total base v (node ∷ next ∷ nodes) s pos h ne = elim (dec_le v base) [
  | yes here ↦ seek_first base v node (next ∷ nodes) s.0 pos here
  | no further ↦ ground (
    arith,
    s.0,
    seek_total base (v - length node) (next ∷ nodes) s.1 pos (omega (arith, s.0)) (omega arith),
    div-eq-sub-div {m = base} {n = v} pos (omega arith),
  )
]
