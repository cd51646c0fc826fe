-- ===== src/Hook/Io.antt =====
-- What `do_io` promises of its timers, of its waiting and of its answers.
use sylar_leo.Base.{
  ℕ, suc, ◌≡◌, ◌≢◌, refl, ap, ◌∙◌, Bool, true, false, not, ◌&&◌, Option, none, some, List, [], ◌∷◌,
  ◌++◌, arith, ◌==◌, length, Bool-cases, inl, inr,
}
use sylar_leo.FdManager.{no_timeout}
use sylar_leo.Hook.{
  Answer, done, error, Wake, by_event, by_timer, Turn, Action, call_fun, add_event, yield_to_hold,
  cancle_event, cancle_timer, add_timer, timer_start, timer_stop, timed_out, eintr, eagain,
  etimedout, Run, after, wait, answered, retry,
}

-- No timer is added while another one runs, none is cancelled that does not run, the function is not
-- called while one runs, and none runs in the end.
pub settled : Bool → List Action → Bool
settled runs [] = not runs
settled runs (add_timer to ∷ actions) = not runs && settled true actions
settled runs (cancle_timer ∷ actions) = runs && settled false actions
settled runs (call_fun ∷ actions) = not runs && settled runs actions
settled runs (add_event ∷ actions) = settled runs actions
settled runs (yield_to_hold ∷ actions) = settled runs actions
settled runs (cancle_event ∷ actions) = settled runs actions

wait-settled :
    (to : ℕ) (event_error : Option ℕ) (wake : Wake) (rest : Run)
    → settled false rest.0 ≡ true
    → settled false (wait to event_error wake rest).0 ≡ true
unfolding wait timer_start timer_stop timed_out after settled
wait-settled to (some e) wake rest h = elim (Bool-cases (to == no_timeout)) [
  | inl endless ↦ rw endless refl
  | inr timer ↦ rw timer refl
]
wait-settled to none by_event rest h = elim (Bool-cases (to == no_timeout)) [
  | inl endless ↦ rw endless h
  | inr timer ↦ rw timer h
]
wait-settled to none by_timer rest h = elim (Bool-cases (to == no_timeout)) [
  | inl endless ↦ rw endless h
  | inr timer ↦ rw timer refl
]

answered-settled :
    (to : ℕ) (t : Turn) (a : Answer) (rest : Run)
    → settled false rest.0 ≡ true
    → settled false (answered to t a rest).0 ≡ true
unfolding answered settled
answered-settled to t (done n) rest h = refl
answered-settled to t (error e) rest h = elim (Bool-cases (e == eintr)) [
  | inl interrupted ↦ rw interrupted h
  | inr other ↦ elim (Bool-cases (e == eagain)) [
    | inl again ↦ rw (other, again) (wait-settled to t.event_error t.wake rest h)
    | inr failed ↦ rw (other, failed) refl
  ]
]

call-settled :
    (run : Run) → settled false run.0 ≡ true → settled false (after (call_fun ∷ []) run).0 ≡ true
unfolding after settled
call-settled (actions, r) h = h

-- Whatever the turns meet, and whether the call returns or still waits for its function: every timer that
-- `do_io` adds is cancelled, at most one runs at a time, and none runs while the function is called.
pub retry-settled : (to : ℕ) (turns : List Turn) → settled false (retry to turns).0 ≡ true
unfolding retry settled
retry-settled to [] = refl
retry-settled to (t ∷ turns) =
    call-settled (answered to t t.answer (retry to turns))
      (answered-settled to t t.answer (retry to turns) (retry-settled to turns))

-- A turn after which `do_io` calls the function again.
pub data Transient (to : ℕ) : Turn → Type 0 where
  interrupted :
      (event_error : Option ℕ) (wake : Wake)
      → Transient to (record { answer = error eintr; event_error = event_error; wake = wake })
  awaited :
      (wake : Wake)
      → timed_out to wake ≡ false
      → Transient to (record { answer = error eagain; event_error = none; wake = wake })

pub data AllTransient (to : ℕ) : List Turn → Type 0 where
  none_left : AllTransient to []
  and_then :
      {t : Turn} {turns : List Turn}
      → Transient to t
      → AllTransient to turns
      → AllTransient to (t ∷ turns)

pub calls : List Action → ℕ
calls [] = 0
calls (call_fun ∷ actions) = suc (calls actions)
calls (add_timer to ∷ actions) = calls actions
calls (cancle_timer ∷ actions) = calls actions
calls (add_event ∷ actions) = calls actions
calls (yield_to_hold ∷ actions) = calls actions
calls (cancle_event ∷ actions) = calls actions

calls-wait :
    (to : ℕ) (wake : Wake) (rest : Run)
    → timed_out to wake ≡ false
    → ((wait to none wake rest).1 ≡ rest.1) × (calls (wait to none wake rest).0 ≡ calls rest.0)
unfolding wait timer_start timer_stop timed_out after calls
calls-wait to by_event rest h = elim (Bool-cases (to == no_timeout)) [
  | inl endless ↦ rw endless (refl, refl)
  | inr timer ↦ rw timer (refl, refl)
]
calls-wait to by_timer rest h = elim (Bool-cases (to == no_timeout)) [
  | inl endless ↦ rw endless (refl, refl)
  | inr timer ↦ absurd (ground (arith, timer, h))
]

-- A transient turn is one call, and the rest of the turns decides.
turn-lem :
    (to : ℕ) (t : Turn) (turns : List Turn)
    → Transient to t
    → ((retry to (t ∷ turns)).1 ≡ (retry to turns).1)
      × (calls (retry to (t ∷ turns)).0 ≡ suc (calls (retry to turns).0))
unfolding retry answered after calls
turn-lem to _ turns (interrupted event_error wake) = (refl, refl)
turn-lem to _ turns (awaited wake h) =
    let (same, count) = calls-wait to wake (retry to turns) h in (same, ap suc count)

-- Where the turns of `do_io` are interrupted or woken by their event, and the function then answers with
-- a result or with an error other than EINTR and EAGAIN: `do_io` returns that answer, after one call for
-- each turn.
pub retry-answers :
    (to : ℕ) (before : List Turn) (t : Turn) (turns : List Turn)
    → AllTransient to before
    → t.answer ≢ error eintr
    → t.answer ≢ error eagain
    → ((retry to (before ++ t ∷ turns)).1 ≡ some t.answer)
      × (calls (retry to (before ++ t ∷ turns)).0 ≡ suc (length before))
unfolding retry answered after calls
retry-answers to [] t turns none_left ne1 ne2 = final t.answer ne1 ne2
  where
    final :
        (a : Answer)
        → a ≢ error eintr
        → a ≢ error eagain
        → ((after (call_fun ∷ []) (answered to t a (retry to turns))).1 ≡ some a)
          × (calls (after (call_fun ∷ []) (answered to t a (retry to turns))).0 ≡ 1)
    final (done n) ne1 ne2 = (refl, refl)
    final (error e) ne1 ne2 = elim (Bool-cases (e == eintr)) [
      | inl bad ↦ absurd (ne1 (ap error (ground (arith, bad))))
      | inr other ↦ elim (Bool-cases (e == eagain)) [
        | inl bad ↦ absurd (ne2 (ap error (ground (arith, bad))))
        | inr failed ↦ rw (other, failed) (refl, refl)
      ]
    ]
retry-answers to (b ∷ before) t turns (and_then first others) ne1 ne2 =
    let (same, count) = turn-lem to b (before ++ t ∷ turns) first in
    let (answer, calls_left) = retry-answers to before t turns others ne1 ne2 in
    (same ∙ answer, count ∙ ap suc calls_left)

-- A `do_io` whose descriptor has a timeout, and whose timer wakes the fiber before its event, fails with
-- ETIMEDOUT, whatever turns were interrupted or woken before.
pub retry-times_out :
    (to : ℕ) (before turns : List Turn)
    → AllTransient to before
    → to ≢ no_timeout
    → (retry to
        (before ++ record { answer = error eagain; event_error = none; wake = by_timer } ∷ turns)).1
      ≡ some (error etimedout)
unfolding retry answered after wait timed_out
retry-times_out to [] turns none_left timer =
    let h : (to == no_timeout) ≡ false = ground (arith, timer) in rw h refl
retry-times_out to (b ∷ before) turns (and_then first others) timer =
    (turn-lem to b
      (before ++ record { answer = error eagain; event_error = none; wake = by_timer } ∷ turns)
      first).0
    ∙ retry-times_out to before turns others timer

-- `addEvent` succeeds on every turn.
pub data EventsAdded : List Turn → Type 0 where
  no_turns : EventsAdded []
  added :
      (answer : Answer) (wake : Wake) {turns : List Turn}
      → EventsAdded turns
      → EventsAdded (record { answer = answer; event_error = none; wake = wake } ∷ turns)

wait-blocks :
    (to : ℕ) (wake : Wake) (rest : Run) (e : ℕ)
    → (rest.1 ≡ some (error e) → (e ≢ eintr) × (e ≢ eagain))
    → (wait to none wake rest).1 ≡ some (error e)
    → (e ≢ eintr) × (e ≢ eagain)
unfolding wait after
wait-blocks to wake rest e later h = elim (Bool-cases (timed_out to wake)) [
  | inl late ↦
      let same : etimedout ≡ e = ground (arith, h, late) in
      (ground (arith, same), ground (arith, same))
  | inr woken ↦ later (rw woken at h)
]

answered-blocks :
    (to : ℕ) (wake : Wake) (a : Answer) (rest : Run) (e : ℕ)
    → (rest.1 ≡ some (error e) → (e ≢ eintr) × (e ≢ eagain))
    → (answered to (record { answer = a; event_error = none; wake = wake }) a rest).1
      ≡ some (error e)
    → (e ≢ eintr) × (e ≢ eagain)
unfolding answered
answered-blocks to wake (done n) rest e later h = absurd (ground (arith, h))
answered-blocks to wake (error f) rest e later h = elim (Bool-cases (f == eintr)) [
  | inl again ↦ later (rw again at h)
  | inr other ↦ elim (Bool-cases (f == eagain)) [
    | inl again ↦ wait-blocks to wake rest e later (rw (other, again) at h)
    | inr failed ↦
        let same : f ≡ e = ground (arith, h, other, failed) in
        (ground (arith, same, other), ground (arith, same, failed))
  ]
]

-- Where `addEvent` never fails, a `do_io` that returns an error returns neither EINTR nor EAGAIN: the
-- caller sees a blocking call.
pub retry-blocks :
    (to : ℕ) (turns : List Turn)
    → EventsAdded turns
    → (e : ℕ) → (retry to turns).1 ≡ some (error e)
    → (e ≢ eintr) × (e ≢ eagain)
unfolding retry after
retry-blocks to [] no_turns e h = absurd (ground (arith, h))
retry-blocks to (_ ∷ turns) (added answer wake others) e h =
    answered-blocks to wake answer (retry to turns) e (retry-blocks to turns others e) h
