-- ===== src/IoManager/Pending.antt =====
-- The invariant of the contexts and of `m_pendingEventCount`, and what triggering an event does to it.
use sylar_leo.Base.{
  ℕ, suc, ◌+◌, ◌≡◌, ◌⊎◌, refl, ◌∙◌, sym, ap, inl, inr, Bool, true, false, none, some, List, [], ◌∷◌,
  ◌++◌, All, arith, if◌then◌else◌, subst, get_elem?, set,
}
use sylar_leo.Fiber.{ok}
use sylar_leo.IoManager.{
  Event, no_event, read, write, Flags, EventContext, FdContext, IoManager, Scheduled, trigger_event,
  trigger_context, trigger, trigger_if, trigger_both, has, without, decrement, reset_context,
}

-- A context with its flag set holds a scheduler and either a fiber or a callback; one without holds
-- nothing.
abbrev pub Waiting : Bool → EventContext → Type 0
Waiting true x =
    ((s : ℕ) × (x.scheduler ≡ some s))
    × (((f : ℕ) × (x.fiber ≡ some f) × (x.cb ≡ none))
        ⊎ ((f : ℕ) × (x.cb ≡ some f) × (x.fiber ≡ none)))
Waiting false x = (x.scheduler ≡ none) × (x.fiber ≡ none) × (x.cb ≡ none)

pub record IsConsistent (c : FdContext) : Type 0 where
  pub reading : Waiting c.events.reads c.read_context
  pub writing : Waiting c.events.writes c.write_context

abbrev pub bit : Bool → ℕ
bit true = 1
bit false = 0

abbrev pub registered : FdContext → ℕ
registered c = bit c.events.reads + bit c.events.writes

abbrev pub total : List FdContext → ℕ
total [] = 0
total (c ∷ cs) = registered c + total cs

pub record IsValid (m : IoManager) : Type 0 where
  pub consistent : All IsConsistent m.contexts
  pub counted : m.pending ≡ total m.contexts

-- Replacing one context.
pub set-IsConsistent :
    (i : ℕ) (c : FdContext) (cs : List FdContext)
    → IsConsistent c
    → All IsConsistent cs
    → All IsConsistent (set cs i c)
set-IsConsistent i c [] h a = tt
set-IsConsistent Prim.Native.Nat.zero c (x ∷ cs) h a = (h, a.1)
set-IsConsistent (suc i) c (x ∷ cs) h a = (a.0, set-IsConsistent i c cs h a.1)

pub found-IsConsistent :
    (i : ℕ) (c : FdContext) (cs : List FdContext)
    → get_elem? cs i ≡ some c
    → All IsConsistent cs
    → IsConsistent c
found-IsConsistent i c [] e a = cc
found-IsConsistent Prim.Native.Nat.zero c (x ∷ cs) e a =
    let same : x ≡ c = cc in subst IsConsistent same a.0
found-IsConsistent (suc i) c (x ∷ cs) e a = found-IsConsistent i c cs e a.1

pub total-set :
    (i : ℕ) (c c' : FdContext) (cs : List FdContext)
    → get_elem? cs i ≡ some c
    → total (set cs i c') + registered c ≡ total cs + registered c'
total-set i c c' [] e = cc
total-set Prim.Native.Nat.zero c c' (x ∷ cs) e =
    let same : x ≡ c = cc in omega (arith, ap registered same)
total-set (suc i) c c' (x ∷ cs) e = omega (arith, total-set i c c' cs e)

pub get-set :
    (i : ℕ) (c c' : FdContext) (cs : List FdContext)
    → get_elem? cs i ≡ some c
    → get_elem? (set cs i c') i ≡ some c'
get-set i c c' [] e = cc
get-set Prim.Native.Nat.zero c c' (x ∷ cs) e = refl
get-set (suc i) c c' (x ∷ cs) e = get-set i c c' cs e

-- `triggerEvent` on a registered event: the context stays consistent, and hands over what waited.
pub record Triggered (event : Event) (c c' : FdContext) (s : Scheduled) : Type 0 where
  pub run : trigger_event event c ≡ ok (c', s)
  pub flags : c'.events ≡ without c.events event
  pub consistent : IsConsistent c'
  pub one_fewer : registered c' + 1 ≡ registered c

-- A waiting context is handed over, and is then empty.
trigger_waiting :
    (event : Event) (x : EventContext) (c : FdContext)
    → Waiting true x
    → (s : Scheduled) × (trigger_context event x c ≡ ok (reset_context event c, s))
unfolding trigger_context
trigger_waiting event x c ((s, es), w) = elim w [
  | inl (f, ef, ec) ↦
      (record { scheduler = s; fiber = some f; cb = none }, ground (arith, es, ef, ec))
  | inr (f, ef, ec) ↦
      (record { scheduler = s; fiber = none; cb = some f }, ground (arith, es, ef, ec))
]

trigger_read :
    (c : FdContext)
    → IsConsistent c
    → c.events.reads ≡ true
    → (c' : FdContext) × (s : Scheduled) × Triggered read c c' s
unfolding trigger_event
trigger_read c v h =
    let c' = record c { events = without c.events read } in
    let (s, e) =
      trigger_waiting read c.read_context c' (subst (λ b. Waiting b c.read_context) h v.reading) in
    (
      reset_context read c',
      s,
      record {
        run = ground (arith, h, e);
        flags = refl;
        consistent = record { reading = (refl, refl, refl); writing = v.writing };
        one_fewer = ground (arith, h);
      },
    )

trigger_write :
    (c : FdContext)
    → IsConsistent c
    → c.events.writes ≡ true
    → (c' : FdContext) × (s : Scheduled) × Triggered write c c' s
unfolding trigger_event
trigger_write c v h =
    let c' = record c { events = without c.events write } in
    let (s, e) =
      trigger_waiting write c.write_context c'
        (subst (λ b. Waiting b c.write_context) h v.writing) in
    (
      reset_context write c',
      s,
      record {
        run = ground (arith, h, e);
        flags = refl;
        consistent = record { reading = v.reading; writing = (refl, refl, refl) };
        one_fewer = ground (arith, h);
      },
    )

-- One event fewer on the count, and one fewer registered.
pub IsValid-fewer :
    (fd : ℕ) (c c' : FdContext) (m : IoManager)
    → IsValid m
    → get_elem? m.contexts fd ≡ some c
    → IsConsistent c'
    → registered c' + 1 ≡ registered c
    → (total (set m.contexts fd c') ≡ decrement m.pending)
      × (m.pending ≡ total (set m.contexts fd c') + 1)
IsValid-fewer fd c c' m v e h fewer =
    let counts = total-set fd c c' m.contexts e in
    let one_more : m.pending ≡ total (set m.contexts fd c') + 1 =
      omega (arith, counts, fewer, v.counted) in
    (ground (arith, one_more), one_more)

-- `triggerEvent` and the count, in the I/O manager.
pub record Handed (fd : ℕ) (event : Event) (c : FdContext) (m : IoManager) (m' : IoManager)
    (c' : FdContext) : Type 0 where
  pub run : trigger fd event c m ≡ ok (m', c')
  pub valid : IsValid m'
  pub there : get_elem? m'.contexts fd ≡ some c'
  pub flags : c'.events ≡ without c.events event
  pub counted : m.pending ≡ m'.pending + 1
  pub same_requests : m'.requests ≡ m.requests

hand_over :
    (fd : ℕ) (event : Event) (c : FdContext) (m : IoManager)
    → IsValid m
    → get_elem? m.contexts fd ≡ some c
    → (c' : FdContext) (s : Scheduled) → Triggered event c c' s
    → (m' : IoManager) × Handed fd event c m m' c'
unfolding trigger
hand_over fd event c m v e c' s t =
    let (less, counted) = IsValid-fewer fd c c' m v e t.consistent t.one_fewer in
    (
      record m {
        contexts = set m.contexts fd c';
        pending = decrement m.pending;
        scheduled = m.scheduled ++ (s ∷ []);
      },
      record {
        run = rw (trigger, t.run);
        valid = record {
          consistent = set-IsConsistent fd c' m.contexts t.consistent v.consistent;
          counted = sym less;
        };
        there = get-set fd c c' m.contexts e;
        flags = t.flags;
        counted = omega (arith, less, counted);
        same_requests = refl;
      },
    )

-- A registered event can be triggered: no assertion fails.
pub trigger_lem :
    (fd : ℕ) (event : Event) (c : FdContext) (m : IoManager)
    → IsValid m
    → get_elem? m.contexts fd ≡ some c
    → has c.events event ≡ true
    → (m' : IoManager) × (c' : FdContext) × Handed fd event c m m' c'
trigger_lem fd no_event c m v e h = cc
trigger_lem fd read c m v e h =
    let (c', s, t) = trigger_read c (found-IsConsistent fd c m.contexts e v.consistent) h in
    let (m', handed) = hand_over fd read c m v e c' s t in (m', c', handed)
trigger_lem fd write c m v e h =
    let (c', s, t) = trigger_write c (found-IsConsistent fd c m.contexts e v.consistent) h in
    let (m', handed) = hand_over fd write c m v e c' s t in (m', c', handed)

pub record Tried (flag : Bool) (fd : ℕ) (event : Event) (c : FdContext) (m : IoManager)
    (m' : IoManager) (c' : FdContext) : Type 0 where
  pub run : trigger_if flag fd event c m ≡ ok (m', c')
  pub valid : IsValid m'
  pub there : get_elem? m'.contexts fd ≡ some c'
  pub flags : c'.events ≡ (if flag then without c.events event else c.events)
  pub counted : m.pending ≡ m'.pending + bit flag
  pub same_requests : m'.requests ≡ m.requests

trigger_if_lem :
    (flag : Bool) (fd : ℕ) (event : Event) (c : FdContext) (m : IoManager)
    → IsValid m
    → get_elem? m.contexts fd ≡ some c
    → (flag ≡ true → has c.events event ≡ true)
    → (m' : IoManager) × (c' : FdContext) × Tried flag fd event c m m' c'
unfolding trigger_if
trigger_if_lem true fd event c m v e h =
    let (m', c', t) = trigger_lem fd event c m v e (h refl) in
    (
      m',
      c',
      record {
        run = t.run;
        valid = t.valid;
        there = t.there;
        flags = t.flags;
        counted = t.counted;
        same_requests = t.same_requests;
      },
    )
trigger_if_lem false fd event c m v e h = (
  m,
  c,
  record {
    run = refl;
    valid = v;
    there = e;
    flags = refl;
    counted = omega arith;
    same_requests = refl;
  },
)

-- Both events of `flags`, when they are registered.
pub record Taken (flags : Flags) (fd : ℕ) (c : FdContext) (m : IoManager) (m' : IoManager)
    (c' : FdContext) : Type 0 where
  pub run : trigger_both flags fd c m ≡ ok (m', c')
  pub valid : IsValid m'
  pub there : get_elem? m'.contexts fd ≡ some c'
  pub reads : c'.events.reads ≡ (if flags.reads then false else c.events.reads)
  pub writes : c'.events.writes ≡ (if flags.writes then false else c.events.writes)
  pub counted : m.pending ≡ m'.pending + bit flags.reads + bit flags.writes
  pub same_requests : m'.requests ≡ m.requests

flags_read :
    (flag : Bool) (e : Flags)
    → ((if flag then without e read else e).reads ≡ (if flag then false else e.reads))
      × ((if flag then without e read else e).writes ≡ e.writes)
flags_read true e = (refl, refl)
flags_read false e = (refl, refl)

flags_write :
    (flag : Bool) (e : Flags)
    → ((if flag then without e write else e).writes ≡ (if flag then false else e.writes))
      × ((if flag then without e write else e).reads ≡ e.reads)
flags_write true e = (refl, refl)
flags_write false e = (refl, refl)

pub trigger_both_lem :
    (flags : Flags) (fd : ℕ) (c : FdContext) (m : IoManager)
    → IsValid m
    → get_elem? m.contexts fd ≡ some c
    → (flags.reads ≡ true → c.events.reads ≡ true)
    → (flags.writes ≡ true → c.events.writes ≡ true)
    → (m' : IoManager) × (c' : FdContext) × Taken flags fd c m m' c'
unfolding trigger_both
trigger_both_lem flags fd c m v e hr hw =
    let (m1, c1, t1) = trigger_if_lem flags.reads fd read c m v e hr in
    let (r1, w1) = flags_read flags.reads c.events in
    let kept : c1.events.writes ≡ c.events.writes = ap (λ f. f.writes) t1.flags ∙ w1 in
    let (m2, c2, t2) =
      trigger_if_lem flags.writes fd write c1 m1 t1.valid t1.there (λ y. kept ∙ hw y) in
    let (w2, r2) = flags_write flags.writes c1.events in
    (
      m2,
      c2,
      record {
        run = rw (trigger_both, t1.run) t2.run;
        valid = t2.valid;
        there = t2.there;
        reads = ap (λ f. f.reads) t2.flags ∙ r2 ∙ ap (λ f. f.reads) t1.flags ∙ r1;
        writes =
            ap (λ f. f.writes) t2.flags ∙ w2 ∙ ap (λ b. if flags.writes then false else b) kept;
        counted = omega (arith, t1.counted, t2.counted);
        same_requests = t2.same_requests ∙ t1.same_requests;
      },
    )
