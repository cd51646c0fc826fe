-- ===== src/ByteArray/Scattering.antt =====
-- What a system call that fills the buffers of getWriteBuffers (sylar/bytearray.cpp) does to the blocks.
use sylar_leo.Base.{
  ℕ, zero, suc, ◌+◌, ◌-◌, ◌≤◌, ◌≡◌, refl, sym, ap, ◌∙◌, Option, none, some, List, [], ◌∷◌, ◌++◌,
  arith, leb, ◌==◌, length, take, drop, flatten, take_all, drop_all, length-take, length-drop,
  take-append-drop, Bool-cases, inl, inr, dec_le,
}
use sylar_leo.ByteArray.{overwrite}
use sylar_leo.ByteArray.Chain.{
  AllSized, length-overwrite, overwrite-append, overwrite-append_across,
}
use sylar_leo.ByteArray.Buffers.{Iovec, next, buffers_loop}

-- The block at a place is changed.
abbrev pub set_node : ℕ → (List ℕ → List ℕ) → List (List ℕ) → List (List ℕ)
set_node i f [] = []
set_node zero f (node ∷ nodes) = f node ∷ nodes
set_node (suc i) f (node ∷ nodes) = node ∷ set_node i f nodes

-- The buffers are filled one behind the other.
pub scatter : List Iovec → List ℕ → List (List ℕ) → List (List ℕ)
scatter [] t nodes = nodes
scatter (v ∷ vs) t nodes =
    scatter vs (drop v.len t) (set_node v.block (overwrite v.offset (take v.len t)) nodes)

scatter-next :
    (vs : List Iovec) (t node : List ℕ) (nodes : List (List ℕ))
    → scatter (next vs) t (node ∷ nodes) ≡ node ∷ scatter vs t nodes
unfolding scatter
scatter-next [] t node nodes = refl
scatter-next (v ∷ vs) t node nodes =
    scatter-next vs (drop v.len t) node (set_node v.block (overwrite v.offset (take v.len t)) nodes)

pub overwrite-nil : (p : ℕ) (l : List ℕ) → overwrite p [] l ≡ l
unfolding overwrite
overwrite-nil p l = let e : p + 0 ≡ p = omega arith in rw e (take-append-drop p l)

-- The blocks with `t` from `npos` on.
pub record Scattered (base : ℕ) (nodes : List (List ℕ)) (npos : ℕ) (t : List ℕ)
    (nodes' : List (List ℕ)) : Type 0 where
  pub sized : AllSized base nodes'
  pub same_length : length nodes' ≡ length nodes
  pub bytes : flatten nodes' ≡ overwrite npos t (flatten nodes)

Scattered-here :
    (base npos : ℕ) (t node : List ℕ) (nodes : List (List ℕ))
    → AllSized base (node ∷ nodes)
    → npos + length t ≤ length node
    → Scattered base (node ∷ nodes) npos t (overwrite npos t node ∷ nodes)
Scattered-here base npos t node nodes s fits = record {
  sized = (length-overwrite npos t node fits ∙ s.0, s.1);
  same_length = refl;
  bytes = sym (overwrite-append npos t node (flatten nodes) fits);
}

Scattered-nil :
    (base npos : ℕ) (nodes : List (List ℕ))
    → AllSized base nodes
    → Scattered base nodes npos [] nodes
Scattered-nil base npos nodes s = record {
  sized = s;
  same_length = refl;
  bytes = sym (overwrite-nil npos (flatten nodes));
}

-- The bytes over a block and the blocks behind it.
across :
    (npos c : ℕ) (t xs ys : List ℕ)
    → npos + c ≡ length xs
    → overwrite npos (take c t) xs ++ overwrite 0 (drop c t) ys ≡ overwrite npos t (xs ++ ys)
across npos c t xs ys e = elim (dec_le c (length t)) [
  | yes far ↦ overwrite-append_across npos c t xs ys e far
  | no short ↦
      rw
        (
          take_all c t (omega (arith, short)),
          drop_all c t (omega (arith, short)),
          overwrite-nil 0 ys,
        )
        (sym (overwrite-append npos t xs ys (omega (arith, e, short))))
]

Scattered-beyond :
    (base npos : ℕ) (t node : List ℕ) (nodes nodes' : List (List ℕ))
    → AllSized base (node ∷ nodes)
    → npos ≤ length node
    → Scattered base nodes 0 (drop (length node - npos) t) nodes'
    → Scattered base
        (node ∷ nodes)
        npos
        t
        (overwrite npos (take (length node - npos) t) node ∷ nodes')
Scattered-beyond base npos t node nodes nodes' s below w = record {
  sized = (
    length-overwrite npos (take (length node - npos) t) node
          (omega (arith, below, length-take (length node - npos) t))
        ∙ s.0,
    w.sized,
  );
  same_length = ap suc w.same_length;
  bytes =
      ap (λ l. overwrite npos (take (length node - npos) t) node ++ l) w.bytes
      ∙ across npos (length node - npos) t node (flatten nodes) (omega (arith, below));
}

no_bytes : (t : List ℕ) → length t ≤ 0 → t ≡ []
no_bytes [] h = refl
no_bytes (c ∷ t) h = absurd (omega (arith, h))

-- The rest of the buffers, where the first one is a whole block.
next_buffers :
    (v : Iovec) (found : Option (List Iovec)) (vs : List Iovec)
    → (elim found as (λ _. Option (List Iovec)) [ none ↦ none | some us ↦ some (v ∷ next us) ])
      ≡ some vs
    → (us : List Iovec) × (found ≡ some us) × (vs ≡ v ∷ next us)
next_buffers v none vs e = absurd (ground (arith, e))
next_buffers v (some us) vs e = (us, refl, ground (arith, e))

-- Bytes that fit the buffers of the loop stand behind one another from `npos` on.
pub scatter-Scattered :
    (base : ℕ) (nodes : List (List ℕ)) (npos n : ℕ) (vs : List Iovec) (t : List ℕ)
    → AllSized base nodes
    → npos ≤ base
    → length t ≤ n
    → buffers_loop nodes npos n ≡ some vs
    → Scattered base nodes npos t (scatter vs t nodes)
unfolding buffers_loop scatter
scatter-Scattered base [] npos n vs t s below short e = absurd (ground (arith, e))
scatter-Scattered base (node ∷ nodes) npos n vs t s below short e =
    let c = length node - npos in
    let whole : Iovec = record { block = 0; offset = npos; len = c } in
    let under : npos ≤ length node = omega (arith, s.0, below) in
    elim (Bool-cases (n == 0)) [
      | inl nothing ↦
          let first : buffers_loop (node ∷ nodes) npos n ≡ some [] = rw nothing refl in
          let empty : vs ≡ [] = ground (arith, sym first ∙ e) in
          let none_left : t ≡ [] = no_bytes t (ground (arith, nothing, short)) in
          rw (empty, none_left) (Scattered-nil base npos (node ∷ nodes) s)
      | inr more ↦ elim (Bool-cases (leb n c)) [
        | inl here ↦
            let first : buffers_loop (node ∷ nodes) npos n ≡ some (record whole { len = n } ∷ []) =
              rw (more, here) refl in
            let one : vs ≡ record whole { len = n } ∷ [] = ground (arith, sym first ∙ e) in
            rw (one, take_all n t short)
              (Scattered-here base npos t node nodes s (ground (arith, here, under, short)))
        | inr beyond ↦
            let first : buffers_loop (node ∷ nodes) npos n
                ≡ elim (buffers_loop nodes 0 (n - c)) as (λ _. Option (List Iovec)) [
                  | none ↦ none
                  | some us ↦ some (whole ∷ next us)
                ] =
              rw (more, beyond) refl in
            let (us, found, many) =
              next_buffers whole (buffers_loop nodes 0 (n - c)) vs (sym first ∙ e) in
            rw (many, scatter-next us (drop c t) (overwrite npos (take c t) node) nodes)
              (Scattered-beyond base npos t node nodes (scatter us (drop c t) nodes) s under (
                scatter-Scattered base nodes 0 (n - c) us (drop c t) s.1 (omega arith)
                  (omega (arith, length-drop c t, short)) found))
      ]
    ]
