-- ===== src/FdManager/Table.antt =====
-- The table of descriptors as a function from descriptors to contexts.
use sylar_leo.Base.{
  ℕ, zero, suc, ◌-◌, ◌*◌, ◌/◌, ◌≤◌, ◌<◌, ◌≡◌, ◌≢◌, refl, ap, ◌∙◌, true, false, Option, none, some,
  List, [], ◌∷◌, ◌++◌, arith, leb, ◌==◌, if◌then◌else◌, lt→ltb, length, set, replicate,
  length-append, length-replicate, take_all, Bool-cases, Option-cases, inl, inr,
}
use sylar_leo.FdManager.{
  FdCtx, FdManager, Stat, a_socket, calls_fcntl, new_fd_ctx, resize, entry, create, get, del,
  update_ctx,
}

-- The vector never has fewer than its first 64 entries.
abbrev pub IsValid : FdManager → Type 0
IsValid m = 64 ≤ length m

length-set : {A : Type 0} (xs : List A) (i : ℕ) (a : A) → length (set xs i a) ≡ length xs
length-set [] i a = refl
length-set (x ∷ xs) zero a = refl
length-set (x ∷ xs) (suc i) a = ap suc (length-set xs i a)

entry-set :
    (m : FdManager) (i j : ℕ) (e : Option FdCtx)
    → i < length m
    → entry j (set m i e) ≡ (if i == j then e else entry j m)
entry-set [] i j e h = absurd (omega arith)
entry-set (x ∷ m) zero zero e h = refl
entry-set (x ∷ m) zero (suc j) e h = ground arith
entry-set (x ∷ m) (suc i) zero e h = ground arith
entry-set (x ∷ m) (suc i) (suc j) e h = entry-set m i j e (omega arith) ∙ ground arith

entry-replicate : (n j : ℕ) → entry j (replicate n none) ≡ none
entry-replicate zero j = refl
entry-replicate (suc n) zero = refl
entry-replicate (suc n) (suc j) = entry-replicate n j

entry-append : (m : FdManager) (n j : ℕ) → entry j (m ++ replicate n none) ≡ entry j m
entry-append [] n j = entry-replicate n j
entry-append (x ∷ m) n zero = refl
entry-append (x ∷ m) n (suc j) = entry-append m n j

-- Growing the vector changes no entry.
resize-grows :
    (n : ℕ) (m : FdManager)
    → length m ≤ n
    → (length (resize n m) ≡ n) × ((j : ℕ) → entry j (resize n m) ≡ entry j m)
unfolding resize
resize-grows n m h = (
  rw (take_all n m h) (
      omega (
        arith,
        length-append m (replicate (n - length m) none),
        length-replicate {A = Option FdCtx} (n - length m) none,
      )),
  λ j. rw (take_all n m h) (entry-append m (n - length m) j),
)

-- What `get` with `auto_create` leaves.
pub record Created (fd : ℕ) (ctx : FdCtx) (m m' : FdManager) : Type 0 where
  pub valid : IsValid m'
  pub there : entry fd m' ≡ some ctx
  pub inside : fd < length m'
  pub others : (j : ℕ) → fd ≢ j → entry j m' ≡ entry j m

stored :
    (fd : ℕ) (ctx : FdCtx) (m m1 : FdManager)
    → IsValid m1
    → fd < length m1
    → ((j : ℕ) → entry j m1 ≡ entry j m)
    → Created fd ctx m (set m1 fd (some ctx))
stored fd ctx m m1 v inside same = record {
  valid = omega (arith, length-set m1 fd (some ctx), v);
  there = entry-set m1 fd fd (some ctx) inside ∙ ground arith;
  inside = omega (arith, length-set m1 fd (some ctx));
  others = λ j ne. entry-set m1 fd j (some ctx) inside ∙ ground (arith, ne, same j);
}

create_lem :
    (fd : ℕ) (stat : Stat) (m : FdManager)
    → IsValid m
    → calls_fcntl stat ≡ false
    → (m' : FdManager) × (create fd stat m ≡ some (m', some (new_fd_ctx fd stat)))
      × Created fd (new_fd_ctx fd stat) m m'
unfolding create
create_lem fd stat m v quiet = elim (Bool-cases (leb (length m) fd)) [
  | inl beyond ↦
      let (len, same) = resize-grows (fd * 3 / 2) m (ground (arith, beyond)) in
      let inside : fd < length (resize (fd * 3 / 2) m) = ground (arith, beyond, len, v) in
      (
        set (resize (fd * 3 / 2) m) fd (some (new_fd_ctx fd stat)),
        rw (create, quiet, beyond, lt→ltb fd (length (resize (fd * 3 / 2) m)) inside),
        stored fd (new_fd_ctx fd stat) m (resize (fd * 3 / 2) m)
            (omega (arith, len, inside, v, ground_le beyond)) inside same,
      )
  | inr within ↦
      let inside : fd < length m = ground (arith, within) in
      (
        set m fd (some (new_fd_ctx fd stat)),
        rw (create, quiet, within, lt→ltb fd (length m) inside),
        stored fd (new_fd_ctx fd stat) m m v inside (λ j. refl),
      )
]
  where
    ground_le : leb (length m) fd ≡ true → length m ≤ fd
    ground_le h = ground (arith, h)

-- Where `init` does not call `fcntl`, `get` with `auto_create` returns a context.
pub get_returns :
    (fd : ℕ) (stat : Stat) (m : FdManager)
    → IsValid m
    → calls_fcntl stat ≡ false
    → (m' : FdManager) × (ctx : FdCtx) × (get (some fd) true stat m ≡ some (m', some ctx))
      × Created fd ctx m m'
unfolding get
get_returns fd stat m v quiet = elim (Bool-cases (leb (length m) fd)) [
  | inl beyond ↦
      let (m', e, c) = create_lem fd stat m v quiet in
      (m', new_fd_ctx fd stat, rw (get, beyond) e, c)
  | inr within ↦ elim (Option-cases (entry fd m)) [
    | inl empty ↦
        let (m', e, c) = create_lem fd stat m v quiet in
        (m', new_fd_ctx fd stat, rw (get, within, empty) e, c)
    | inr (ctx, found) ↦ (
      m,
      ctx,
      rw (get, within, found),
      record { valid = v; there = found; inside = ground (arith, within); others = λ j ne. refl },
    )
  ]
]

-- What `get` with `auto_create` does: it returns a context, or it stops at the lock, for a descriptor that
-- had none and is a socket without O_NONBLOCK.
pub data Got (fd : ℕ) (stat : Stat) (m : FdManager)
    : Option (FdManager × Option FdCtx) → Type 0 where
  returned :
      {m' : FdManager} {ctx : FdCtx} → Created fd ctx m m' → Got fd stat m (some (m', some ctx))
  at_lock : entry fd m ≡ none → stat ≡ a_socket false → Got fd stat m none

entry-outside : (fd : ℕ) (m : FdManager) → leb (length m) fd ≡ true → entry fd m ≡ none
entry-outside fd [] h = refl
entry-outside zero (x ∷ m) h = absurd (ground (arith, h))
entry-outside (suc fd) (x ∷ m) h = entry-outside fd m (ground (arith, h))

-- `del` leaves no context for its descriptor, so that `get` without `auto_create` returns the null
-- pointer, and leaves all other descriptors what they have.
pub get-del :
    (fd j : ℕ) (stat : Stat) (m : FdManager)
    → IsValid m
    → fd ≢ j
    → (get (some fd) false stat (del fd m) ≡ some (del fd m, none))
      × (entry j (del fd m) ≡ entry j m)
      × IsValid (del fd m)
unfolding get del
get-del fd j stat m v ne = elim (Bool-cases (leb (length m) fd)) [
  | inl beyond ↦ rw (del, beyond) (rw (get, beyond), refl, v)
  | inr within ↦
      let inside : fd < length m = ground (arith, within) in
      let gone : entry fd (set m fd none) ≡ none = entry-set m fd fd none inside ∙ ground arith in
      let same_length = length-set m fd none in
      let still : leb (length (set m fd none)) fd ≡ false = rw same_length within in
      (
        rw (del, within, get, still, gone, del, within),
        rw (del, within) (entry-set m fd j none inside ∙ ground (arith, ne)),
        rw (del, within) (omega (arith, same_length, v)),
      )
]

entry-inside : (fd : ℕ) (m : FdManager) (ctx : FdCtx) → entry fd m ≡ some ctx → fd < length m
entry-inside fd [] ctx h = absurd (ground (arith, h))
entry-inside zero (x ∷ m) ctx h = ground arith
entry-inside (suc fd) (x ∷ m) ctx h = let inside = entry-inside fd m ctx h in omega (arith, inside)

-- Without `auto_create`, `get` reads the entry and leaves the table as it is.
pub get_entry :
    (fd : ℕ) (stat : Stat) (m : FdManager) → get (some fd) false stat m ≡ some (m, entry fd m)
unfolding get
get_entry fd stat m = elim (Bool-cases (leb (length m) fd)) [
  | inl beyond ↦ rw (beyond, entry-outside fd m beyond) refl
  | inr within ↦ elim (Option-cases (entry fd m)) [
    | inl empty ↦ rw (within, empty) refl
    | inr (ctx, found) ↦ rw (within, found) refl
  ]
]

-- A change of a context is read at its descriptor, and nowhere else.
pub entry-update_ctx :
    (fd j : ℕ) (ctx ctx' : FdCtx) (m : FdManager)
    → entry fd m ≡ some ctx
    → entry j (update_ctx fd ctx' m) ≡ (if fd == j then some ctx' else entry j m)
unfolding update_ctx
entry-update_ctx fd j ctx ctx' m h = entry-set m fd j (some ctx') (entry-inside fd m ctx h)

pub entry-del : (fd : ℕ) (m : FdManager) → entry fd (del fd m) ≡ none
unfolding del
entry-del fd m = elim (Bool-cases (leb (length m) fd)) [
  | inl beyond ↦ rw beyond (entry-outside fd m beyond)
  | inr within ↦ rw within (entry-set m fd fd none (ground (arith, within)) ∙ ground arith)
]
