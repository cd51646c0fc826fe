-- ===== src/IoManager/Idle/Waiting.antt =====
-- How long `idle` waits, when it ends, and what becomes of the timers.
use sylar_leo.Base.{
  ℕ, zero, suc, ◌%◌, ◌^◌, ◌≤◌, ◌<◌, ◌≡◌, ◌≢◌, refl, sym, ap, subst, ◌∙◌, inl, inr, true, false,
  Option, none, some, List, [], ◌∷◌, ◌++◌, map, ltb, ◌==◌, arith, All, Bool-cases,
}
use sylar_leo.Fiber.{Outcome, ok, aborted}
use sylar_leo.Timer.{Timer, TimerManager, get_next_timer, list_expired_cb}
use sylar_leo.Timer.Manager.{Armed, IsValid}
use sylar_leo.Timer.Expiry.{
  Due, callbacks, list_expired_cb_lem, get_next_timer_lem, get_next_timer-state, All-front,
}
use sylar_leo.Scheduler.{Task, stopping, has_work, is_some, is_empty}
use sylar_leo.Scheduler.Queue.{schedule_all_lem, runnable}
use sylar_leo.IoManager.{IoManager}
use sylar_leo.IoManager.Idle.{
  EpollWait, milliseconds, for_ever, no_timer, is_negative, clamp, epoll_timeout, wait_calls, Idle,
  stopping_timeout, cb_task, schedule_expired, Turn, leaves, fails, yields, turn_end, turn,
  Reported, handle_all,
}

-- What `epoll_wait` is given for the time until the next timer: at most three seconds and no longer than
-- that time, unless its low 32 bits are a negative `int`, which waits for ever.
pub data Waits (next_timeout : ℕ) : EpollWait → Type 0 where
  bounded : {ms : ℕ} → ms ≤ 3000 → ms ≤ next_timeout → Waits next_timeout (milliseconds ms)
  unbounded : next_timeout ≢ no_timer → 2 ^ 31 ≤ next_timeout % 2 ^ 32 → Waits next_timeout for_ever

-- The time-out that is left by the first computation is one that the next leaves.
clamp-twice : (t : ℕ) → clamp (clamp t) ≡ clamp t
unfolding clamp
clamp-twice t = ground arith

clamp-Waits : (t : ℕ) → Waits t (epoll_timeout (clamp t))
unfolding clamp epoll_timeout
clamp-Waits t = elim (Bool-cases (t == no_timer)) [
  | inl none_left ↦ rw none_left (bounded (omega arith) (ground arith))
  | inr other ↦ elim (Bool-cases (is_negative t)) [
    | inl negative ↦ rw (other, negative, negative) (unbounded (ground arith) (ground arith))
    | inr positive ↦ elim (Bool-cases (ltb 3000 (t % 2 ^ 32))) [
      | inl longer ↦ rw (other, positive, longer) (bounded (omega arith) (ground arith))
      | inr shorter ↦
          rw (other, positive, shorter, positive) (bounded (ground arith) (ground arith))
    ]
  ]
]

-- Every call of `epoll_wait` in a turn is given the same time-out, however often it is interrupted.
wait_calls-Waits : (interrupts t : ℕ) → All (Waits t) (wait_calls interrupts t)
wait_calls-Waits zero t = (clamp-Waits t, tt)
wait_calls-Waits (suc interrupts) t = (clamp-Waits t, again interrupts)
  where
    again : (n : ℕ) → All (Waits t) (wait_calls n (clamp t))
    again zero = (subst (λ x. Waits t (epoll_timeout x)) (sym (clamp-twice t)) (clamp-Waits t), tt)
    again (suc n) = (
      subst (λ x. Waits t (epoll_timeout x)) (sym (clamp-twice t)) (clamp-Waits t),
      subst (λ x. All (Waits t) (wait_calls n x)) (sym (clamp-twice t)) (again n),
    )

cb_task-has_work : (cb : Option ℕ) → cb ≢ none → has_work (cb_task cb) ≡ true
unfolding is_some
cb_task-has_work none h = absurd (h refl)
cb_task-has_work (some cb) h = refl

tasks_runnable :
    (heap : ℕ → Timer) (expired : List ℕ)
    → All (λ a. Armed (heap a)) expired
    → runnable (map cb_task (callbacks heap expired)) ≡ map cb_task (callbacks heap expired)
tasks_runnable heap [] h = refl
tasks_runnable heap (a ∷ expired) (armed, h) =
    rw (cb_task-has_work (heap a).cb armed)
      (ap (λ l. cb_task (heap a).cb ∷ l) (tasks_runnable heap expired h))

-- What the expiry of timers leaves: the tasks of those that are due behind the queue, and the others.
pub record Expired (now : ℕ) (s s' : Idle) : Type 0 where
  pub expired : List ℕ
  pub rest : List ℕ
  pub joined : expired ++ rest ≡ s.timers.timers
  pub due : All (Due s.timers.heap now) expired
  pub later : All (λ a. now < (s.timers.heap a).next) rest
  pub queued :
      s'.scheduler.queue ≡ s.scheduler.queue ++ map cb_task (callbacks s.timers.heap expired)
  pub valid : IsValid s'.timers

schedule_expired-Expired :
    (now probe : ℕ) (s : Idle) → IsValid s.timers → Expired now s (schedule_expired now probe s)
unfolding schedule_expired
schedule_expired-Expired now probe s v =
    let (expired, rest, joined, due, later, handed, valid) =
      list_expired_cb_lem now probe s.timers v in
    let cbs = (list_expired_cb now probe s.timers).1 in
    let (armed, _) =
      All-front (λ a. Armed (s.timers.heap a)) expired rest
        (subst (All (λ a. Armed (s.timers.heap a))) (sym joined) v.armed) in
    record {
      expired = expired;
      rest = rest;
      joined = joined;
      due = due;
      later = later;
      queued =
          (schedule_all_lem (map cb_task cbs) s.scheduler.queue).0
          ∙ ap (λ l. s.scheduler.queue ++ runnable (map cb_task l)) handed
          ∙ ap (λ l. s.scheduler.queue ++ l) (tasks_runnable s.timers.heap expired armed);
      valid = valid;
    }

-- `getNextTimer` and the handling of events change nothing that the expiry is about.
Expired-around :
    (now probe : ℕ) (s : Idle) (tm : TimerManager) (io : IoManager)
    → tm ≡ record s.timers { tickled = false }
    → IsValid s.timers
    → Expired now s (record (schedule_expired now probe (record s { timers = tm })) { io = io })
unfolding schedule_expired
Expired-around now probe s tm io e v =
    subst
      (λ t.
        Expired now s (record (schedule_expired now probe (record s { timers = t })) { io = io }))
      (sym e)
      (let s0 = record s { timers = record s.timers { tickled = false } } in
        let x =
          schedule_expired-Expired now probe s0 (record { sorted = v.sorted; armed = v.armed }) in
        record {
          expired = x.expired;
          rest = x.rest;
          joined = x.joined;
          due = x.due;
          later = x.later;
          queued = x.queued;
          valid = x.valid;
        })

-- Nothing is left to do.
pub record IsFinished (s : Idle) : Type 0 where
  pub no_timers : s.timers.timers ≡ []
  pub nothing_pending : s.io.pending ≡ 0
  pub queue_empty : s.scheduler.queue ≡ []
  pub nobody_active : s.scheduler.active ≡ 0

timers_gone :
    (now : ℕ) (m : TimerManager) (xs : List ℕ)
    → m.timers ≡ xs
    → IsValid m
    → All (λ a. (m.heap a).next < no_timer) m.timers
    → (get_next_timer now m).1 ≡ no_timer
    → m.timers ≡ []
timers_gone now m [] e v h none_left = e
timers_gone now m (a ∷ xs) e v h none_left =
    let head = (get_next_timer_lem now a xs m v e).0 in
    let small = (subst (All (λ a. (m.heap a).next < no_timer)) e h).0 in
    absurd (omega (arith, head, small, none_left))

stopping-IsFinished :
    (now : ℕ) (s : Idle)
    → IsValid s.timers
    → All (λ a. (s.timers.heap a).next < no_timer) s.timers.timers
    → (stopping_timeout now s).0 ≡ true
    → IsFinished s
unfolding stopping_timeout stopping is_empty
stopping-IsFinished now s v h stops = record {
  no_timers = timers_gone now s.timers s.timers.timers refl v h (ground (arith, stops));
  nothing_pending = ground (arith, stops);
  queue_empty = empty_queue s.scheduler.queue (ground (arith, stops));
  nobody_active = ground (arith, stops);
}
  where
    empty_queue : (q : List Task) → is_empty q ≡ true → q ≡ []
    empty_queue [] e = refl
    empty_queue (t ∷ q) e = absurd (ground (arith, e))

-- How a turn of `idle` ends: it is left with nothing to do, an assertion on the events fails, or it has
-- waited, and the timers that were due when the wait was over have expired.
pub data Ends (before after : ℕ) (s : Idle) : Turn → Type 0 where
  left : {s' : Idle} → IsFinished s → Ends before after s (leaves s')
  failed : Ends before after s fails
  swapped :
      {waits : List EpollWait} {s' : Idle}
      → All (Waits (get_next_timer before s.timers).1) waits
      → Expired after s s'
      → Ends before after s (yields waits s')

-- For timers in order that are due before the last millisecond of the clock, a turn of `idle` leaves the
-- loop only where no timer, no pending event, no task and no active thread is left; otherwise each of its
-- waits is at most three seconds and no longer than the time until the next timer, unless the low 32 bits
-- of that time are negative as an `int`, where it waits for ever; and where no assertion fails, the
-- callbacks of just the timers that are due behind the wait are put behind the queue, in their order.
pub turn_lem :
    (before after probe interrupts : ℕ) (reported : List Reported) (s : Idle)
    → IsValid s.timers
    → All (λ a. (s.timers.heap a).next < no_timer) s.timers.timers
    → Ends before after s (turn before after probe interrupts reported s)
unfolding turn stopping_timeout
turn_lem before after probe interrupts reported s v h =
    elim (Bool-cases (stopping_timeout before s).0) [
      | inl stops ↦ rw stops (left (stopping-IsFinished before s v h stops))
      | inr goes_on ↦ rw goes_on (go (handle_all reported s''.io))
    ]
  where
    s'' : Idle
    s'' = schedule_expired after probe (record s { timers = (get_next_timer before s.timers).0 })

    waits : List EpollWait
    waits = wait_calls interrupts (get_next_timer before s.timers).1

    go : (o : Outcome IoManager) → Ends before after s (turn_end waits s'' o)
    go aborted = failed
    go (ok io) = swapped (wait_calls-Waits interrupts (get_next_timer before s.timers).1) (
        Expired-around after probe s (get_next_timer before s.timers).0 io
          (get_next_timer-state before s.timers) v)
