-- ===== src/IoManager/Removal.antt =====
-- What `delEvent`, `cancleEvent`, `cancleAll` and the event loop of `idle` do to the contexts and to the count.
use sylar_leo.Base.{
  ℕ, ◌+◌, ◌≡◌, refl, ◌∙◌, sym, Bool, true, false, ◌&&◌, ◌||◌, not, some, [], ◌∷◌, ◌++◌, arith,
  get_elem?, set, Bool-cases, inl, inr, if◌then◌else◌,
}
use sylar_leo.Fiber.{ok, aborted}
use sylar_leo.IoManager.{
  Event, no_event, read, write, Flags, FdContext, IoManager, Request, trigger, trigger_if,
  trigger_both, trigger_event, ctl_mod, ctl_del, del_event, cancle_event, cancle_all, handle_event,
  has, any, without, decrement, reset_context, logged, removal, no_flags,
}
use sylar_leo.IoManager.Pending.{
  IsConsistent, IsValid, registered, bit, trigger_lem, trigger_both_lem, found-IsConsistent,
  set-IsConsistent, IsValid-fewer, get-set,
}

IsValid-logged : (r : Request) (m : IoManager) → IsValid m → IsValid (logged r m)
IsValid-logged r m v = record { consistent = v.consistent; counted = v.counted }

-- One registered event taken away: the count is one lower, and the context no longer has it.
pub record Removed (fd : ℕ) (event : Event) (c : FdContext) (m : IoManager) (m' : IoManager)
    : Type 0 where
  pub valid : IsValid m'
  pub context : FdContext
  pub there : get_elem? m'.contexts fd ≡ some context
  pub flags : context.events ≡ without c.events event
  pub counted : m.pending ≡ m'.pending + 1
  pub requested : m'.requests ≡ m.requests ++ (removal event c ∷ [])

del_read :
    (c : FdContext)
    → IsConsistent c
    → c.events.reads ≡ true
    → IsConsistent (reset_context read (record c { events = without c.events read }))
      × (registered (reset_context read (record c { events = without c.events read })) + 1
          ≡ registered c)
del_read c v h = (record { reading = (refl, refl, refl); writing = v.writing }, ground (arith, h))

del_write :
    (c : FdContext)
    → IsConsistent c
    → c.events.writes ≡ true
    → IsConsistent (reset_context write (record c { events = without c.events write }))
      × (registered (reset_context write (record c { events = without c.events write })) + 1
          ≡ registered c)
del_write c v h = (record { reading = v.reading; writing = (refl, refl, refl) }, ground (arith, h))

del_context :
    (event : Event) (c : FdContext)
    → IsConsistent c
    → has c.events event ≡ true
    → IsConsistent (reset_context event (record c { events = without c.events event }))
      × (registered (reset_context event (record c { events = without c.events event })) + 1
          ≡ registered c)
      × ((reset_context event (record c { events = without c.events event })).events
          ≡ without c.events event)
del_context no_event c v h = cc
del_context read c v h = let (a, b) = del_read c v h in (a, b, refl)
del_context write c v h = let (a, b) = del_write c v h in (a, b, refl)

-- On valid contexts, where the event is registered for the descriptor and `epoll_ctl` succeeds,
-- `delEvent` returns true: the event is taken away, the count is one lower and still the number of
-- registered events, the request is logged, and nothing is scheduled.
pub del_event_lem :
    (fd : ℕ) (event : Event) (c : FdContext) (m : IoManager)
    → IsValid m
    → get_elem? m.contexts fd ≡ some c
    → has c.events event ≡ true
    → (m' : IoManager) × (del_event fd event true m ≡ ok (m', true))
      × Removed fd event c m m'
      × (m'.scheduled ≡ m.scheduled)
unfolding del_event
del_event_lem fd event c m v e h =
    let c' = reset_context event (record c { events = without c.events event }) in
    let (consistent, fewer, flags) =
      del_context event c (found-IsConsistent fd c m.contexts e v.consistent) h in
    let (less, one_more) = IsValid-fewer fd c c' m v e consistent fewer in
    let m' = record (logged (removal event c) m) {
      contexts = set m.contexts fd c';
      pending = decrement m.pending;
    } in
    (
      m',
      rw (del_event, e, h),
      record {
        valid = record {
          consistent = set-IsConsistent fd c' m.contexts consistent v.consistent;
          counted = sym less;
        };
        context = c';
        there = get-set fd c c' m.contexts e;
        flags = flags;
        counted = omega (arith, less, one_more);
        requested = refl;
      },
      refl,
    )

-- On valid contexts, where the event is registered for the descriptor and `epoll_ctl` succeeds,
-- `cancleEvent` returns true, without a failed assertion: the event is taken away, the count is one
-- lower and still the number of registered events, and the request is logged.
pub cancle_event_lem :
    (fd : ℕ) (event : Event) (c : FdContext) (m : IoManager)
    → IsValid m
    → get_elem? m.contexts fd ≡ some c
    → has c.events event ≡ true
    → (m' : IoManager) × (cancle_event fd event true m ≡ ok (m', true)) × Removed fd event c m m'
unfolding cancle_event
cancle_event_lem fd event c m v e h =
    let (m', c', t) =
      trigger_lem fd event c (logged (removal event c) m) (IsValid-logged _ m v) e h in
    (
      m',
      rw (cancle_event, e, h, t.run),
      record {
        valid = t.valid;
        context = c';
        there = t.there;
        flags = t.flags;
        counted = t.counted;
        requested = t.same_requests;
      },
    )

none_left : (b : Bool) → (if b then false else b) ≡ false
none_left true = refl
none_left false = refl

-- Neither flag is left.
pub nothing_left : (e : Flags) → e.reads ≡ false → e.writes ≡ false → any e ≡ false
nothing_left e r w = rw (r, w)

-- On valid contexts, where an event is registered for the descriptor and `epoll_ctl` succeeds,
-- `cancleAll` returns true, without a failed assertion: no event of the descriptor is left, and the
-- count is lower by those that were registered, and still the number of registered events.
pub cancle_all_lem :
    (fd : ℕ) (c : FdContext) (m : IoManager)
    → IsValid m
    → get_elem? m.contexts fd ≡ some c
    → any c.events ≡ true
    → (m' : IoManager) × (c' : FdContext) × (cancle_all fd true m ≡ ok (m', true))
      × IsValid m'
      × (get_elem? m'.contexts fd ≡ some c')
      × (any c'.events ≡ false)
      × (m.pending ≡ m'.pending + registered c)
unfolding cancle_all
cancle_all_lem fd c m v e h =
    let request : Request = record { op = ctl_del; fd = c.fd; flags = no_flags; edge = false } in
    let (m', c', t) =
      trigger_both_lem c.events fd c (logged request m) (IsValid-logged request m v) e (λ x. x)
        (λ x. x) in
    let left =
      nothing_left c'.events (t.reads ∙ none_left c.events.reads)
        (t.writes ∙ none_left c.events.writes) in
    (m', c', rw (cancle_all, e, h, t.run, left), t.valid, t.there, left, omega (arith, t.counted))

-- A flag of `real_events` is registered, when the reported flag is.
real_registered : (r e c : Bool) → (r ≡ true → c ≡ true) → (r || (e && c)) ≡ true → c ≡ true
real_registered true e c h x = h refl
real_registered false true c h x = x
real_registered false false c h x = cc

real_none : (r c : Bool) → (r ≡ true → c ≡ true) → (c && r) ≡ false → bit r ≡ 0
real_none true true h x = cc
real_none true false h x = cc (h refl)
real_none false c h x = refl

or_left : (a b : Bool) → (a || b) ≡ false → a ≡ false
or_left true b h = h
or_left false b h = refl

or_right : (a b : Bool) → (a || b) ≡ false → b ≡ false
or_right true b h = cc
or_right false b h = h

none_counted : (n : ℕ) (r w : Bool) → bit r ≡ 0 → bit w ≡ 0 → n ≡ n + bit r + bit w
none_counted n r w a b = omega (arith, a, b)

-- On valid contexts, where epoll reports registered events only, the event loop fails no assertion
-- after a successful `epoll_ctl`: the contexts stay valid, and the count is lower by the events that
-- were reported, or that are registered when an error is.
pub handle_event_lem :
    (fd : ℕ) (reported : Flags) (error : Bool) (c : FdContext) (m : IoManager)
    → IsValid m
    → get_elem? m.contexts fd ≡ some c
    → (reported.reads ≡ true → c.events.reads ≡ true)
    → (reported.writes ≡ true → c.events.writes ≡ true)
    → (m' : IoManager) × (handle_event fd reported error true m ≡ ok m')
      × IsValid m'
      × (m.pending
          ≡ m'.pending
            + bit (reported.reads || (error && c.events.reads))
            + bit (reported.writes || (error && c.events.writes)))
unfolding handle_event
handle_event_lem fd reported error c m v e hr hw =
    let r = reported.reads || (error && c.events.reads) in
    let w = reported.writes || (error && c.events.writes) in
    let r_on : r ≡ true → c.events.reads ≡ true =
      real_registered reported.reads error c.events.reads hr in
    let w_on : w ≡ true → c.events.writes ≡ true =
      real_registered reported.writes error c.events.writes hw in
    let real : Flags = record { reads = r; writes = w } in
    let left : Flags = record {
      reads = c.events.reads && not r;
      writes = c.events.writes && not w;
    } in
    let request : Request = record {
      op = if any left then ctl_mod else ctl_del;
      fd = c.fd;
      flags = left;
      edge = true;
    } in
    let (m', c', t) =
      trigger_both_lem real fd c (logged request m) (IsValid-logged request m v) e r_on w_on in
    elim (Bool-cases ((c.events.reads && r) || (c.events.writes && w))) [
      | inl on ↦ (m', rw (handle_event, e, on, t.run), t.valid, t.counted)
      | inr off ↦ (
        m,
        rw (handle_event, e, off),
        v,
        none_counted m.pending r w (real_none r c.events.reads r_on (or_left _ _ off))
            (real_none w c.events.writes w_on (or_right _ _ off)),
      )
    ]

-- Where only WRITE is registered for the descriptor and epoll reports reading and writing, which it may
-- since `addEvent` always asks for EPOLLIN, the assertion in `triggerEvent` fails.
pub handle_event_stale :
    (fd : ℕ) (error : Bool) (c : FdContext) (m : IoManager)
    → get_elem? m.contexts fd ≡ some c
    → c.events.reads ≡ false
    → c.events.writes ≡ true
    → handle_event fd (record { reads = true; writes = true }) error true m ≡ aborted
unfolding handle_event trigger_both trigger_if trigger trigger_event
handle_event_stale fd error c m e r w = rw (handle_event, e, r, w)
