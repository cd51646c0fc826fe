-- ===== src/Timer/Manager.antt =====
-- The invariant of a TimerManager under the methods that add, cancel and move timers.
use sylar_leo.Base.{
  ℕ, ◌+◌, ◌-◌, ◌%◌, ◌^◌, ◌≡◌, ◌≢◌, ◌∙◌, sym, ap, subst, ◌⊎◌, inl, inr, Bool, true, false, not, ◌&&◌,
  none, some, List, ◌==◌, if◌then◌else◌, All, Bool-cases, Option-cases, arith,
}
use sylar_leo.Timer.{
  Timer, TimerManager, update, insert, find, erase, insert_timer, add_timer, cancle, move_timer,
  refresh, reset, is_begin,
}
use sylar_leo.Timer.Order.{
  IsSorted, NotIn, insert-IsSorted, erase-IsSorted, erase-NotIn, update-IsSorted, All-insert,
  All-updated, All-erase, find-insert, find-NotIn,
}

abbrev pub Armed : Timer → Type 0
Armed timer = timer.cb ≢ none

-- The set is in the order of the comparator, and each timer in it has its callback.
pub record IsValid (m : TimerManager) : Type 0 where
  pub sorted : IsSorted m.heap m.timers
  pub armed : All (λ a. Armed (m.heap a)) m.timers

-- A timer that is not in the set is set up anew at `a` and inserted.
pub inserted :
    (a : ℕ) (timer : Timer) (heap : ℕ → Timer) (xs : List ℕ)
    → NotIn a xs
    → Armed timer
    → IsSorted heap xs
    → All (λ x. Armed (heap x)) xs
    → IsSorted (update heap a timer) (insert (update heap a timer) a xs)
      × All (λ x. Armed (update heap a timer x)) (insert (update heap a timer) a xs)
inserted a timer heap xs n h s w = (
  insert-IsSorted (update heap a timer) a xs (update-IsSorted heap a timer xs n s),
  All-insert (λ x. Armed (update heap a timer x)) (update heap a timer) a xs (λ e. h (sym here ∙ e))
      (All-updated Armed heap a timer xs n w),
)
  where
    here : (update heap a timer a).cb ≡ timer.cb
    here = ground arith

-- `addTimer` with a callback, at an address that is not in the set, keeps the set in order and its timers
-- with their callbacks; the timer is then in the set, and due `ms` from now (in 64 bits).
pub add_timer_lem :
    (now a ms f : ℕ) (recurring : Bool) (m : TimerManager)
    → NotIn a m.timers
    → IsValid m
    → IsValid (add_timer now a ms (some f) recurring m).0
      × (find
            (add_timer now a ms (some f) recurring m).0.heap
            a
            (add_timer now a ms (some f) recurring m).0.timers
          ≡ true)
      × (((add_timer now a ms (some f) recurring m).0.heap a).next ≡ (now + ms) % 2 ^ 64)
unfolding add_timer
add_timer_lem now a ms f recurring m n v =
    let timer : Timer = record {
      recurring = recurring;
      ms = ms;
      next = (now + ms) % 2 ^ 64;
      cb = some f;
    } in
    let (s, w) = inserted a timer m.heap m.timers n (λ e. cc) v.sorted v.armed in
    (record { sorted = s; armed = w }, find-insert (update m.heap a timer) a m.timers, ground arith)

-- `onTimerInsertedAtFront` is called exactly where the new timer comes first and no call is pending
-- since the last `getNextTimer`; where it comes first, one is pending from then on.
pub insert_timer_front :
    (a : ℕ) (m : TimerManager)
    → ((insert_timer a m).1 ≡ (is_begin a (insert_timer a m).0.timers && not m.tickled))
      × ((is_begin a (insert_timer a m).0.timers && not (insert_timer a m).0.tickled) ≡ false)
unfolding insert_timer
insert_timer_front a m = ground arith

-- What a cancelled timer is: without a callback, out of the set, and deaf to every later call.
pub record Cancelled (a : ℕ) (m : TimerManager) : Type 0 where
  pub no_cb : (m.heap a).cb ≡ none
  pub gone : find m.heap a m.timers ≡ false
  pub cancle_again : cancle a m ≡ (m, false)
  pub refresh_again : (now : ℕ) → refresh now a m ≡ (m, false)

-- On a timer that still has its callback `cancle` returns true, and keeps the set in order; the timer is
-- then out of the set and without a callback, and later calls of `cancle` and `refresh` on it return
-- false and change nothing.
pub cancle_lem :
    (a f : ℕ) (m : TimerManager)
    → (m.heap a).cb ≡ some f
    → IsValid m
    → ((cancle a m).1 ≡ true) × IsValid (cancle a m).0 × Cancelled a (cancle a m).0
unfolding cancle
cancle_lem a f m e v =
    let out = erase-NotIn m.heap a m.timers v.sorted in
    let m' : TimerManager = record m {
      heap = update m.heap a (record (m.heap a) { cb = none });
      timers = erase m.heap a m.timers;
    } in
    let run : cancle a m ≡ (m', true) = rw (e, cancle) in
    let dead : (m'.heap a).cb ≡ none = ground arith in
    (
      ap (λ r. r.1) run,
      subst (λ r. IsValid r.0) (sym run)
          (record {
            sorted = update-IsSorted m.heap a _ _ out (erase-IsSorted m.heap a m.timers v.sorted);
            armed =
                All-updated Armed m.heap a _ _ out
                  (All-erase (λ x. Armed (m.heap x)) m.heap a m.timers v.armed);
          }),
      subst (λ r. Cancelled a r.0) (sym run)
          (record {
            no_cb = dead;
            gone = find-NotIn m'.heap a m'.timers out;
            cancle_again = unfold cancle in ground (arith, dead);
            refresh_again = λ now. unfold refresh in ground (arith, dead);
          }),
    )

-- A timer that is taken out and put back with another time.
moved-IsValid :
    (a : ℕ) (timer : Timer) (m : TimerManager)
    → Armed timer
    → IsValid m
    → IsSorted (update m.heap a timer) (insert (update m.heap a timer) a (erase m.heap a m.timers))
      × All
          (λ x. Armed (update m.heap a timer x))
          (insert (update m.heap a timer) a (erase m.heap a m.timers))
moved-IsValid a timer m h v =
    inserted a timer m.heap (erase m.heap a m.timers) (erase-NotIn m.heap a m.timers v.sorted) h
      (erase-IsSorted m.heap a m.timers v.sorted)
      (All-erase (λ x. Armed (m.heap x)) m.heap a m.timers v.armed)

-- `refresh` keeps the set in order, and its timers with their callbacks, whatever it returns.
pub refresh-IsValid : (now a : ℕ) (m : TimerManager) → IsValid m → IsValid (refresh now a m).0
unfolding refresh
refresh-IsValid now a m v = elim outcome [
  | inl same ↦ subst IsValid (sym same) v
  | inr (armed, moved) ↦
      let (s, w) = moved-IsValid a timer m armed v in
      subst IsValid (sym moved) (record { sorted = s; armed = w })
]
  where
    timer : Timer
    timer = record (m.heap a) { next = (now + (m.heap a).ms) % 2 ^ 64 }

    outcome :
        ((refresh now a m).0 ≡ m) ⊎ (Armed timer × ((refresh now a m).0 ≡ move_timer a timer m))
    outcome = elim (Option-cases (m.heap a).cb) [
      | inl e ↦ inl (rw (e, refresh))
      | inr (f, e) ↦ elim (Bool-cases (find m.heap a m.timers)) [
        | inl found ↦ inr ((λ n. cc (sym e ∙ n)), ground (arith, e, found))
        | inr missing ↦ inl (ground (arith, e, missing))
      ]
    ]

-- `reset` keeps the set in order, and its timers with their callbacks, whatever it returns.
pub reset-IsValid :
    (now a ms : ℕ) (from_now : Bool) (m : TimerManager)
    → IsValid m
    → IsValid (reset now a ms from_now m).0
unfolding reset
reset-IsValid now a ms from_now m v = elim outcome [
  | inl same ↦ subst IsValid (sym same) v
  | inr (armed, heap_same, timers_same) ↦
      let (s, w) = moved-IsValid a timer m armed v in
      record { sorted = rw (heap_same, timers_same) s; armed = rw (heap_same, timers_same) w }
]
  where
    timer : Timer
    timer = record (m.heap a) {
      ms = ms;
      next =
          ((if from_now then now else ((m.heap a).next + 2 ^ 64 - (m.heap a).ms) % 2 ^ 64) + ms)
          % 2 ^ 64;
    }

    outcome :
        ((reset now a ms from_now m).0 ≡ m)
        ⊎ (Armed timer
            × ((reset now a ms from_now m).0.heap ≡ update m.heap a timer)
            × ((reset now a ms from_now m).0.timers
                ≡ insert (update m.heap a timer) a (erase m.heap a m.timers)))
    outcome = elim (Option-cases (m.heap a).cb) [
      | inl e ↦ inl (ground (arith, e))
      | inr (f, e) ↦ elim (Bool-cases ((ms == (m.heap a).ms) && not from_now)) [
        | inl nothing ↦ inl (ground (arith, nothing))
        | inr go ↦ elim (Bool-cases (find m.heap a m.timers)) [
          | inl found ↦
              inr
                ((λ n. cc (sym e ∙ n)), ground (arith, e, found, go), ground (arith, e, found, go))
          | inr missing ↦ inl (ground (arith, e, missing, go))
        ]
      ]
    ]
