-- ===== src/Http/Connection/Pooling.antt =====
-- What HttpConnectionPool keeps true of its connections.
use sylar_leo.Base.{
  ℕ, suc, ◌+◌, ◌-◌, ◌%◌, ◌^◌, ◌<◌, ◌≡◌, refl, sym, ap, subst, ◌⊎◌, inl, inr, Bool, true, false,
  ◌||◌, not, Option, none, some, List, [], ◌∷◌, ◌++◌, arith, leb, ltb, length, length-append,
  Bool-cases,
}
use sylar_leo.Http.Connection.{
  Connection, Pool, new_pool, take_idle, get_connection, release, Step, gets, gets_none, releases,
  Reaches, start, then_step,
}

-- All connections of the list were used less than `n` times.
pub data Under (n : ℕ) : List Connection → Type 0 where
  no_conn : Under n []
  conn :
      {c : Connection} {conns : List Connection}
      → c.requests < n
      → Under n conns
      → Under n (c ∷ conns)

-- All connections of the list are new or were used less than `n` times.
pub data Usable (n : ℕ) : List Connection → Type 0 where
  nothing_out : Usable n []
  is_out :
      {c : Connection} {out : List Connection}
      → (c.requests ≡ 0) ⊎ (c.requests < n)
      → Usable n out
      → Usable n (c ∷ out)

-- `m_total` counts the idle connections and those that are out, and none is used beyond `m_maxRequest`.
pub record IsValid (n : ℕ) (s : Pool × List Connection) : Type 0 where
  pub limit : s.0.max_request ≡ n
  pub counted : s.0.total ≡ length s.0.conns + length s.1
  pub idle : Under n s.0.conns
  pub usable : Usable n s.1

Under-append :
    {n : ℕ} (conns : List Connection) (c : Connection)
    → Under n conns
    → c.requests < n
    → Under n (conns ++ c ∷ [])
Under-append [] c no_conn h = conn h no_conn
Under-append (d ∷ conns) c (conn g others) h = conn g (Under-append conns c others h)

Usable-out :
    {n : ℕ} (before : List Connection) (c : Connection) (after : List Connection)
    → Usable n (before ++ c ∷ after)
    → Usable n (before ++ after)
Usable-out [] c after (is_out h others) = others
Usable-out (d ∷ before) c after (is_out h others) = is_out h (Usable-out before c after others)

-- What the loop of `getConnection` leaves of the idle connections.
data Taken (connected : Connection → Bool) (n : ℕ) (conns : List Connection)
    : ℕ × (Option Connection × List Connection) → Type 0 where
  one :
      {dropped : ℕ} {c : Connection} {left : List Connection}
      → dropped + suc (length left) ≡ length conns
      → connected c ≡ true
      → c.requests < n
      → Under n left
      → Taken connected n conns (dropped, (some c, left))
  nobody : {dropped : ℕ} → dropped ≡ length conns → Taken connected n conns (dropped, (none, []))

Taken-skip :
    {connected : Connection → Bool} {n : ℕ} {conns : List Connection} (c : Connection)
    (r : ℕ × (Option Connection × List Connection))
    → Taken connected n conns r
    → Taken connected n (c ∷ conns) (suc r.0, r.1)
Taken-skip c _ (one count alive uses left) = one (omega (arith, count)) alive uses left
Taken-skip c _ (nobody count) = nobody (ap suc count)

take_idle_lem :
    (connected : Connection → Bool) (now max_alive_time n : ℕ) (conns : List Connection)
    → Under n conns
    → Taken connected n conns (take_idle connected now max_alive_time conns)
unfolding take_idle
take_idle_lem connected now max_alive_time n [] no_conn = nobody refl
take_idle_lem connected now max_alive_time n (c ∷ conns) (conn uses others) =
    elim (Bool-cases (not (connected c) || ltb now ((c.create_time + max_alive_time) % 2 ^ 64))) [
      | inl bad ↦ rw bad (
          Taken-skip c (take_idle connected now max_alive_time conns)
            (take_idle_lem connected now max_alive_time n conns others))
      | inr good ↦
          let taken : Taken connected n (c ∷ conns) (0, (some c, conns)) =
            one (omega arith)
              (alive (connected c) (ltb now ((c.create_time + max_alive_time) % 2 ^ 64)) good) uses
              others in
          rw good taken
    ]
  where
    alive : (a b : Bool) → (not a || b) ≡ false → a ≡ true
    alive true b h = refl
    alive false b h = sym h

-- The pool and the answer of `get_connection`.
pub data Got (connected : Connection → Bool) (n : ℕ) (p : Pool) (fresh : Option ℕ)
    (out : List Connection) : Pool × Option Connection → Type 0 where
  idle_one :
      {p' : Pool} {c : Connection}
      → connected c ≡ true
      → IsValid n (p', c ∷ out)
      → Got connected n p fresh out (p', some c)
  new_one :
      {p' : Pool} {c : Connection} {id : ℕ}
      → fresh ≡ some id
      → c.id ≡ id
      → IsValid n (p', c ∷ out)
      → Got connected n p fresh out (p', some c)
  failure :
      {p' : Pool} → fresh ≡ none → IsValid n (p', out) → Got connected n p fresh out (p', none)

get_connection-Got :
    (connected : Connection → Bool) (now : ℕ) (fresh : Option ℕ) (n : ℕ) (p : Pool)
    (out : List Connection)
    → IsValid n (p, out)
    → (r : ℕ × (Option Connection × List Connection)) → Taken connected n p.conns r
    → Got connected n p fresh out (elim r.1.0 [
      | some c ↦ (record p { conns = r.1.1; total = p.total - r.0 }, some c)
      | none ↦ elim fresh [
        | none ↦ (record p { conns = r.1.1; total = p.total - r.0 }, none)
        | some id ↦ (
          record p { conns = r.1.1; total = p.total - r.0 + 1 },
          some (record { id = id; create_time = 0; requests = 0 }),
        )
      ]
    ])
get_connection-Got connected now fresh n p out v _ (one {dropped} count alive uses left) =
    let counted = v.counted in
    idle_one alive (record {
      limit = v.limit;
      counted = omega (arith, counted, count);
      idle = left;
      usable = is_out (inr uses) v.usable;
    })
get_connection-Got connected now none n p out v _ (nobody count) =
    let counted = v.counted in
    failure refl (record {
      limit = v.limit;
      counted = omega (arith, counted, count);
      idle = no_conn;
      usable = v.usable;
    })
get_connection-Got connected now (some id) n p out v _ (nobody count) =
    let counted = v.counted in
    new_one refl refl (record {
      limit = v.limit;
      counted = omega (arith, counted, count);
      idle = no_conn;
      usable = is_out (inl refl) v.usable;
    })

-- From a pool that keeps its count: `getConnection` hands out an idle connection that is connected, or
-- the one it makes, and returns the null pointer only where it can make none. The count is then right
-- again.
pub get_connection_lem :
    (connected : Connection → Bool) (now : ℕ) (fresh : Option ℕ) (n : ℕ) (p : Pool)
    (out : List Connection)
    → IsValid n (p, out)
    → Got connected n p fresh out (get_connection connected now fresh p)
unfolding get_connection
get_connection_lem connected now fresh n p out v =
    get_connection-Got connected now fresh n p out v
      (take_idle connected now p.max_alive_time p.conns)
      (take_idle_lem connected now p.max_alive_time n p.conns v.idle)

length-out :
    (before : List Connection) (c : Connection) (after : List Connection)
    → length (before ++ c ∷ after) ≡ suc (length (before ++ after))
length-out [] c after = refl
length-out (d ∷ before) c after = ap suc (length-out before c after)

release-IsValid :
    (connected : Connection → Bool) (now n : ℕ) (p : Pool) (before after : List Connection)
    (c : Connection)
    → IsValid n (p, before ++ c ∷ after)
    → IsValid n (release connected now c p, before ++ after)
unfolding release
release-IsValid connected now n p before after c v =
    let counted = v.counted in
    let one_less = length-out before c after in
    let limit = v.limit in
    elim (Bool-cases (
      not (connected c)
      || (leb now ((c.create_time + p.max_alive_time) % 2 ^ 64)
          || leb p.max_request (c.requests + 1)))) [
            | inl ends ↦ rw ends (record {
              limit = v.limit;
              counted = omega (arith, counted, one_less);
              idle = v.idle;
              usable = Usable-out before c after v.usable;
            })
            | inr stays ↦
                let used = record c { requests = c.requests + 1 } in
                let longer = length-append p.conns (used ∷ []) in
                rw stays (record {
                  limit = v.limit;
                  counted = omega (arith, counted, one_less, longer);
                  idle = Under-append p.conns used v.idle (
                      ground (
                        arith,
                        limit,
                        last (not (connected c))
                            (leb now ((c.create_time + p.max_alive_time) % 2 ^ 64))
                            (leb p.max_request (c.requests + 1)) stays,
                      ));
                  usable = Usable-out before c after v.usable;
                })
          ]
  where
    last : (a b c : Bool) → (a || (b || c)) ≡ false → c ≡ false
    last false false c h = h
    last false true c h = absurd (ground (arith, h))
    last true b c h = absurd (ground (arith, h))

Got-some :
    {connected : Connection → Bool} {n : ℕ} {p p' : Pool} {fresh : Option ℕ} {out : List Connection}
    {c : Connection}
    → Got connected n p fresh out (p', some c)
    → IsValid n (p', c ∷ out)
Got-some (idle_one alive v) = v
Got-some (new_one made same v) = v

Got-none :
    {connected : Connection → Bool} {n : ℕ} {p p' : Pool} {fresh : Option ℕ} {out : List Connection}
    → Got connected n p fresh out (p', none)
    → IsValid n (p', out)
Got-none (failure nothing v) = v

Step-IsValid : (n : ℕ) (s t : Pool × List Connection) → Step s t → IsValid n s → IsValid n t
Step-IsValid n _ _ (gets connected now fresh p p' c out e) v = Got-some (
    subst (λ r. Got connected n p fresh out r) e (get_connection_lem connected now fresh n p out v))
Step-IsValid n _ _ (gets_none connected now fresh p p' out e) v = Got-none (
    subst (λ r. Got connected n p fresh out r) e (get_connection_lem connected now fresh n p out v))
Step-IsValid n _ _ (releases connected now p before after c) v =
    release-IsValid connected now n p before after c v

-- However connections are taken from a new pool and released, at any times and in any order: `m_total` is
-- the number of those that are idle and those that are out, and every idle connection was used less than
-- `m_maxRequest` times.
pub Reaches-IsValid :
    (max_alive_time n : ℕ) (s t : Pool × List Connection)
    → Reaches s t
    → s ≡ (new_pool max_alive_time n, [])
    → IsValid n t
unfolding new_pool
Reaches-IsValid max_alive_time n s _ (start _) e =
    subst (λ x. IsValid n x) (sym e)
      (record { limit = refl; counted = refl; idle = no_conn; usable = nothing_out })
Reaches-IsValid max_alive_time n _ _ (then_step s t u reached step) e =
    Step-IsValid n t u step (Reaches-IsValid max_alive_time n s t reached e)
