-- ===== src/ByteArray/Filling.antt =====
-- sylar/streams/socket_stream.cpp: a ByteArray whose buffers a system call fills, and the `setPosition`
-- behind it.
use sylar_leo.Base.{
  ℕ, zero, suc, ◌+◌, ◌*◌, ◌/◌, ◌%◌, ◌≤◌, ◌<◌, ◌≡◌, refl, sym, ap, ap₂, ◌∙◌, Option, none, some,
  List, [], ◌∷◌, ◌++◌, arith, ltb, if◌then◌else◌, length, take, drop, flatten, length-append,
  length-take, length-drop, All-append, All-take, All-drop,
}
use sylar_leo.ByteArray.{ByteArray, Outcome, M, ok, overwrite, set_position, ◌>>=◌, bind_ok}
use sylar_leo.ByteArray.Chain.{length-flatten}
use sylar_leo.ByteArray.Validity.{IsValid, contents, Grown, Written}
use sylar_leo.ByteArray.Writing.{Written-after_growth, take-overwrite, flatten_overwritten}
use sylar_leo.ByteArray.Reading.{set_position_lem}
use sylar_leo.ByteArray.Buffers.{Iovec, buffers_loop}
use sylar_leo.ByteArray.Offering.{below_blocks}
use sylar_leo.ByteArray.Scattering.{scatter, scatter-Scattered, overwrite-nil}
use native.Mathlib.Nat.{mod-lt}

-- The blocks after the buffers that start at the block of `m_cur` are filled.
abbrev pub fill_blocks : (cur : Option ℕ) → List Iovec → List ℕ → List (List ℕ) → List (List ℕ)
fill_blocks none vs t chain = chain
fill_blocks (some i) vs t chain = take i chain ++ scatter vs t (drop i chain)

abbrev pub filled : List Iovec → List ℕ → ByteArray → ByteArray
filled vs t b = record b { chain = fill_blocks b.cur vs t b.chain }

-- The position moves behind what was transferred.
abbrev pub move_position : Option ℕ → M (Option ℕ)
move_position none b = ok none b
move_position (some zero) b = ok (some zero) b
move_position (some (suc n)) b = (set_position (b.position + suc n) >>= λ _. ok (some (suc n))) b

-- A ByteArray with `t` in its blocks, whose position is not moved yet.
pub record IsFilled (t : List ℕ) (b f : ByteArray) : Type 0 where
  pub valid : IsValid f
  pub position : f.position ≡ b.position
  pub size : f.size ≡ b.size
  pub capacity : f.capacity ≡ b.capacity
  pub bytes : flatten f.chain ≡ overwrite b.position t (flatten b.chain)
  pub same_endian : f.endian ≡ b.endian
  pub same_host : f.host ≡ b.host

pub filled-IsFilled :
    (len : ℕ) (b : ByteArray) (vs : List Iovec) (t : List ℕ)
    → IsValid b
    → b.position < b.capacity
    → length t ≤ len
    → buffers_loop (drop (b.position / b.base_size) b.chain) (b.position % b.base_size) len
      ≡ some vs
    → IsFilled t b (filled vs t b)
filled-IsFilled len b vs t v inside short e =
    let i = b.position / b.base_size in
    let here : b.cur ≡ some i = ground (arith, v.at_cur) in
    let below = below_blocks b v inside in
    let w =
      scatter-Scattered b.base_size (drop i b.chain) (b.position % b.base_size) len vs t
        (All-drop _ i b.chain v.sized) (omega (arith, mod-lt b.position v.base_pos)) short e in
    let same_blocks : length (take i b.chain ++ scatter vs t (drop i b.chain)) ≡ length b.chain =
      omega (
        arith,
        length-append (take i b.chain) (scatter vs t (drop i b.chain)),
        length-take i b.chain,
        length-drop i b.chain,
        w.same_length,
        below,
      ) in
    rw here (record {
      valid = record {
        base_pos = v.base_pos;
        sized =
            All-append _ (take i b.chain) (scatter vs t (drop i b.chain))
              (All-take _ i b.chain v.sized) w.sized;
        room = v.room ∙ ap (λ (n : ℕ). n * b.base_size) (sym same_blocks);
        rooted = rw same_blocks v.rooted;
        position_le = v.position_le;
        size_le = v.size_le;
        at_cur = sym here ∙ v.at_cur;
      };
      position = refl;
      size = refl;
      capacity = refl;
      bytes =
          flatten_overwritten b.base_size b.position t b.chain (scatter vs t (drop i b.chain))
            v.sized (omega (arith, below)) w.bytes;
      same_endian = refl;
      same_host = refl;
    })

-- `setPosition` behind the bytes that were received, where any were.
pub move_position-Written :
    (t : List ℕ) (b f : ByteArray)
    → IsValid b
    → b.position + length t ≤ b.capacity
    → IsFilled t b f
    → (b' : ByteArray) × (move_position (some (length t)) f ≡ ok (some (length t)) b')
      × Written t b b'
move_position-Written [] b f v fits w = (
  f,
  refl,
  record {
    valid = w.valid;
    position = w.position ∙ omega arith;
    contents_lem =
        ap₂ take w.size (w.bytes ∙ overwrite-nil b.position (flatten b.chain))
        ∙ sym (overwrite-nil b.position (contents b));
    same_endian = w.same_endian;
    same_host = w.same_host;
  },
)
move_position-Written (c ∷ t) b f v fits w =
    let n = length (c ∷ t) in
    let behind : f.position + n ≡ b.position + n = ap (λ p. p + n) w.position in
    let (b', e, moved) =
      set_position_lem (f.position + n) f w.valid (omega (arith, behind, fits, w.capacity)) in
    let all_bytes : length (flatten b.chain) ≡ b.capacity =
      length-flatten b.base_size b.chain v.sized ∙ sym v.room in
    (
      b',
      bind_ok (set_position (f.position + n)) (λ _. ok (some n)) f e,
      record {
        valid = moved.valid;
        position = moved.position ∙ behind;
        contents_lem =
            moved.contents_lem
            ∙ ap₂ (λ p l. take (if ltb f.size p then p else f.size) l) behind w.bytes
            ∙ ap
                (λ s.
                  take (if ltb s (b.position + n) then b.position + n else s)
                    (overwrite b.position (c ∷ t) (flatten b.chain)))
                w.size
            ∙ take-overwrite b.size b.position (c ∷ t) (flatten b.chain) v.position_le
                (omega (arith, all_bytes, v.size_le)) (omega (arith, all_bytes, fits));
        same_endian = moved.same_endian ∙ w.same_endian;
        same_host = moved.same_host ∙ w.same_host;
      },
    )

-- What the call that receives gives, and what is then in the ByteArray: after an error its bytes and its
-- position are kept, else what was received is written at the position.
pub data Received (b : ByteArray) : Option (List ℕ) → Outcome (Option ℕ) → Type 0 where
  failed :
      {g : ByteArray}
      → IsValid g
      → contents g ≡ contents b
      → g.position ≡ b.position
      → Received b none (ok none g)
  received :
      {t : List ℕ} {b' : ByteArray} → Written t b b' → Received b (some t) (ok (some (length t)) b')

-- The buffers are filled with what was received, and the position is moved behind it.
abbrev pub receive : List Iovec → Option (List ℕ) → M (Option ℕ)
receive vs none b = ok none b
receive vs (some t) b = move_position (some (length t)) (filled vs t b)

pub receive-Received :
    (len : ℕ) (b g : ByteArray) (vs : List Iovec) (r : Option (List ℕ))
    → Grown len b g
    → 0 < len
    → ((t : List ℕ) → r ≡ some t → length t ≤ len)
    → buffers_loop (drop (g.position / g.base_size) g.chain) (g.position % g.base_size) len
      ≡ some vs
    → Received b r (receive vs r g)
receive-Received len b g vs none w more short e = failed w.valid w.same_contents w.same_position
receive-Received len b g vs (some t) w more short e =
    let few = short t refl in
    let (b', moved, done) =
      move_position-Written t g (filled vs t g) w.valid (omega (arith, w.fits, few))
        (filled-IsFilled len g vs t w.valid (omega (arith, w.fits, more)) few e) in
    rw moved (received (Written-after_growth t len b g b' w done))
