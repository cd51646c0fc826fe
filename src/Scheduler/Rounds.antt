-- ===== src/Scheduler/Rounds.antt =====
-- What a round of `run` leaves.
use sylar_leo.Base.{
  ℕ, ◌+◌, ◌≡◌, ◌≢◌, refl, inl, inr, true, false, Option, none, some, List, All, if_both, subst,
  Option-cases, arith, if◌then◌else◌,
}
use sylar_leo.Fiber.{
  State, init, hold, exec, term, ready, except, Outcome, ok, aborted, ended, is_exec, is_over,
}
use sylar_leo.Scheduler.{
  Task, has_work, is_running, pick, Scheduler, after_fiber, after_callback, after_idle,
  callback_fiber, Round, ran_fiber, dropped, ran_idle, resume_fiber, run_callback, run_task, lower,
  run_idle, round,
}
use sylar_leo.Scheduler.Queue.{pick-some, pick_asserts}

-- The state that a round leaves a fiber in: a fiber is running afterwards only if it was before.
abbrev Settled : Scheduler → Scheduler → Type 0
Settled s s' = (g : ℕ) → s'.states g ≡ exec → s.states g ≡ exec

after_fiber-Settled : (f : ℕ) (back : State) (s : Scheduler) → Settled s (after_fiber f back s)
unfolding after_fiber
after_fiber-Settled f init s g e = ground arith
after_fiber-Settled f _ s g e = ground arith

after_callback-Settled :
    (f : ℕ) (back : State) (s : Scheduler) → Settled s (after_callback f back s)
unfolding after_callback
after_callback-Settled f init s g e = ground arith
after_callback-Settled f _ s g e = ground arith

after_idle-Settled : (back : State) (s : Scheduler) → Settled s (after_idle back s)
unfolding after_idle
after_idle-Settled init s g e = ground arith
after_idle-Settled _ s g e = ground arith

same_active_fiber :
    (f : ℕ) (back : State) (s : Scheduler) → (after_fiber f back s).active ≡ s.active
unfolding after_fiber
same_active_fiber f init s = refl
same_active_fiber f _ s = refl

same_active_callback :
    (f : ℕ) (back : State) (s : Scheduler) → (after_callback f back s).active ≡ s.active
unfolding after_callback
same_active_callback f init s = refl
same_active_callback f _ s = refl

same_active_idle : (back : State) (s : Scheduler) → (after_idle back s).active ≡ s.active
unfolding after_idle
same_active_idle init s = refl
same_active_idle _ s = refl

-- What a branch of `run` leaves, where it does not abort.
abbrev Leaves : Scheduler → Outcome (Scheduler × Round) → Type 0
Leaves s aborted = Unit {0}
Leaves s (ok (s', r)) = (s'.active ≡ s.active) × Settled s s'

resume_fiber-Leaves : (f : ℕ) (back : State) (s : Scheduler) → Leaves s (resume_fiber f back s)
unfolding resume_fiber
resume_fiber-Leaves f back s =
    if_both (Leaves s) (is_exec (s.states f)) aborted (ok (after_fiber f back s, ran_fiber f)) tt
      (same_active_fiber f back s, after_fiber-Settled f back s)

run_callback-Leaves :
    (cb fresh : ℕ) (back : State) (s : Scheduler) → Leaves s (run_callback cb fresh back s)
unfolding run_callback
run_callback-Leaves cb fresh back s = go (callback_fiber fresh s.cb_fiber s.states) refl
  where
    go :
        (o : Outcome ℕ)
        → callback_fiber fresh s.cb_fiber s.states ≡ o
        → Leaves s (run_callback cb fresh back s)
    go aborted e = rw (e, run_callback) tt
    go (ok f) e =
        rw (e, run_callback) (same_active_callback f back s, after_callback-Settled f back s)

run_task-Leaves :
    (t : Task) (fresh : ℕ) (back : State) (s : Scheduler) → Leaves s (run_task t fresh back s)
unfolding run_task
run_task-Leaves t fresh back s = by_fiber t.fiber
  where
    kept : Leaves s (ok (s, dropped))
    kept = (refl, λ g e. e)

    by_cb :
        (cb : Option ℕ)
        → Leaves s (elim cb [ none ↦ ok (s, dropped) | some c ↦ run_callback c fresh back s ])
    by_cb none = kept
    by_cb (some c) = run_callback-Leaves c fresh back s

    by_fiber :
        (fiber : Option ℕ)
        → Leaves s (elim fiber [
          | none ↦ elim t.cb [ none ↦ ok (s, dropped) | some c ↦ run_callback c fresh back s ]
          | some f ↦
              if is_over (s.states f)
              then elim t.cb [ none ↦ ok (s, dropped) | some c ↦ run_callback c fresh back s ]
              else resume_fiber f back s
        ])
    by_fiber none = by_cb t.cb
    by_fiber (some f) =
        if_both (Leaves s) (is_over (s.states f)) _ _ (by_cb t.cb) (resume_fiber-Leaves f back s)

lower-Leaves :
    (s : Scheduler) (queue : List Task) (o : Outcome (Scheduler × Round))
    → Leaves (record s { queue = queue; active = s.active + 1 }) o
    → Leaves s (lower o)
unfolding lower
lower-Leaves s queue aborted h = tt
lower-Leaves s queue (ok (s', r)) h = (omega (arith, h.0), h.1)

run_idle-Leaves : (back : State) (s : Scheduler) → Leaves s (run_idle back s)
unfolding run_idle
run_idle-Leaves back s = by_state (s.states s.idle_fiber) refl
  where
    gone : Leaves s (ok (after_idle back s, ran_idle))
    gone = (same_active_idle back s, after_idle-Settled back s)

    by_state : (i : State) → s.states s.idle_fiber ≡ i → Leaves s (run_idle back s)
    by_state init e = rw (e, run_idle) gone
    by_state hold e = rw (e, run_idle) gone
    by_state exec e = rw (e, run_idle) tt
    by_state term e = rw (e, run_idle) (refl, λ g x. x)
    by_state ready e = rw (e, run_idle) gone
    by_state except e = rw (e, run_idle) gone

round_outcome :
    (thread fresh : ℕ) (back : State) (s s' : Scheduler) (r : Round)
    → round thread fresh back s ≡ ok (s', r)
    → (s'.active ≡ s.active) × ((g : ℕ) → s'.states g ≡ exec → s.states g ≡ exec)
unfolding round
round_outcome thread fresh back s s' r e = subst (Leaves s) e (
    if_both (Leaves s) (pick s.states thread s.queue).failed aborted _ tt
      (by_task (pick s.states thread s.queue).task))
  where
    by_task :
        (t : Option Task)
        → Leaves s (elim t [
          | some x ↦ lower (
              run_task x fresh back
                (record s { queue = (pick s.states thread s.queue).queue; active = s.active + 1 }))
          | none ↦ run_idle back s
        ])
    by_task none = run_idle-Leaves back s
    by_task (some t) =
        let picked = (pick s.states thread s.queue).queue in
        let held = record s { queue = picked; active = s.active + 1 } in
        (lower-Leaves s picked (run_task t fresh back held) (run_task-Leaves t fresh back held))

-- However the fiber comes back, a round that does not abort leaves the count of active threads as it
-- was, and a fiber that was not running before the round is not running after it.
pub round_lem :
    (thread fresh : ℕ) (back : State) (s s' : Scheduler) (r : Round) (g : ℕ)
    → round thread fresh back s ≡ ok (s', r)
    → s.states g ≢ exec
    → (s'.active ≡ s.active) × (s'.states g ≢ exec)
round_lem thread fresh back s s' r g e h =
    let (same, settled) = round_outcome thread fresh back s s' r e in (same, λ x. h (settled g x))

-- Every branch that resumes a fiber finds it ready to be resumed.
run_callback_runs :
    (cb fresh : ℕ) (back : State) (s : Scheduler)
    → ((f : ℕ) → s.cb_fiber ≡ some f → ended (s.states f) ≡ true)
    → run_callback cb fresh back s ≢ aborted
unfolding run_callback callback_fiber
run_callback_runs cb fresh back s free = elim (Option-cases s.cb_fiber) [
  | inl e ↦ ground (arith, e)
  | inr (f, e) ↦ ground (arith, e, free f e)
]

run_task_runs :
    (t : Task) (thread fresh : ℕ) (back : State) (s : Scheduler)
    → ((f : ℕ) → s.cb_fiber ≡ some f → ended (s.states f) ≡ true)
    → is_running s.states t ≡ false
    → run_task t fresh back s ≢ aborted
unfolding run_task is_running resume_fiber
run_task_runs t thread fresh back s free idle_ = elim (Option-cases t.fiber) [
  | inl e ↦ elim (Option-cases t.cb) [
    | inl n ↦ ground (arith, e, n)
    | inr (cb, n) ↦ ground (arith, e, n, run_callback_runs cb fresh back s free)
  ]
  | inr (f, e) ↦ elim (Option-cases t.cb) [
    | inl n ↦ ground (arith, e, n, idle_)
    | inr (cb, n) ↦ ground (arith, e, n, idle_, run_callback_runs cb fresh back s free)
  ]
]

-- A round does not abort while every task in the queue has something to run, the fiber kept for
-- callbacks has ended and the idle fiber is not running.
pub round_runs :
    (thread fresh : ℕ) (back : State) (s : Scheduler)
    → All (λ t. has_work t ≡ true) s.queue
    → ((f : ℕ) → s.cb_fiber ≡ some f → ended (s.states f) ≡ true)
    → s.states s.idle_fiber ≢ exec
    → round thread fresh back s ≢ aborted
unfolding round
round_runs thread fresh back s w free resting =
    elim (Option-cases (pick s.states thread s.queue).task) [
      | inl none_left ↦
          rw (none_left, round, pick_asserts s.states thread s.queue w) (idle_runs back s resting)
      | inr (t, found) ↦
          let (before, behind, _, _, _, fit) = pick-some s.states thread s.queue t found in
          rw (found, round, pick_asserts s.states thread s.queue w)
            (lower_runs _ (run_task_runs t thread fresh back _ free (ground (arith, fit))))
    ]
  where
    lower_runs : (o : Outcome (Scheduler × Round)) → o ≢ aborted → lower o ≢ aborted
    lower_runs aborted h e = h refl
    lower_runs (ok (s', r)) h e = unfold lower in cc

    idle_runs : (b : State) (q : Scheduler) → q.states q.idle_fiber ≢ exec → run_idle b q ≢ aborted
    idle_runs b q h = unfold run_idle in ground arith
