-- ===== src/Timer.antt =====
-- sylar/timer.h and sylar/timer.cpp: timers and the ordered set that a TimerManager keeps of them.
-- Each method that takes the write lock is one function; the clock (`GetCurrentMS`) is an argument.
pub mod Order
pub mod Manager
pub mod Expiry
mod Examples
use sylar_leo.Base.{
  ℕ, ◌+◌, ◌-◌, ◌*◌, ◌%◌, ◌^◌, Bool, true, false, ◌&&◌, not, Option, none, some, List, [], ◌∷◌, ◌++◌,
  ltb, leb, ◌==◌, if◌then◌else◌,
}

-- `cb` is a callback by its number, `none` for the empty function. A timer that has no callback and
-- is in no set is what is left of one that was cancelled or has fired for the last time.
pub record Timer : Type 0 where
  pub recurring : Bool
  pub ms : ℕ
  pub next : ℕ
  pub cb : Option ℕ

-- `heap` holds the timers by address; `timers` is the set `m_timers`, in its order.
pub record TimerManager : Type 0 where
  pub heap : ℕ → Timer
  pub timers : List ℕ
  pub tickled : Bool
  pub previous_time : ℕ

abbrev pub update : (ℕ → Timer) → ℕ → Timer → ℕ → Timer
update heap a timer b = if b == a then timer else heap b

-- `Timer::Comparator` on two timers: by `m_next`, then by address.
abbrev pub less : (ℕ → Timer) → ℕ → ℕ → Bool
less heap lhs rhs =
    if ltb (heap lhs).next (heap rhs).next
    then true
    else if ltb (heap rhs).next (heap lhs).next
    then false
    else ltb lhs rhs

-- The comparator with its null pointers.
pub comparator : (ℕ → Timer) → Option ℕ → Option ℕ → Bool
comparator heap none none = false
comparator heap none (some rhs) = true
comparator heap (some lhs) none = false
comparator heap (some lhs) (some rhs) = less heap lhs rhs

-- `std::set::insert`, `find` and `erase` under the comparator.
pub insert : (ℕ → Timer) → ℕ → List ℕ → List ℕ
insert heap a [] = a ∷ []
insert heap a (x ∷ xs) =
    let rest = x ∷ insert heap a xs in
    if less heap a x then a ∷ x ∷ xs else if less heap x a then rest else x ∷ xs

pub find : (ℕ → Timer) → ℕ → List ℕ → Bool
find heap a [] = false
find heap a (x ∷ xs) =
    let rest = find heap a xs in if not (less heap a x) && not (less heap x a) then true else rest

pub erase : (ℕ → Timer) → ℕ → List ℕ → List ℕ
erase heap a [] = []
erase heap a (x ∷ xs) =
    let rest = x ∷ erase heap a xs in
    if not (less heap a x) && not (less heap x a) then xs else rest

pub is_begin : ℕ → List ℕ → Bool
is_begin a [] = false
is_begin a (x ∷ xs) = x == a

-- `addTimer(val, lock)`: the Boolean tells whether `onTimerInsertedAtFront` is called.
pub insert_timer : ℕ → TimerManager → TimerManager × Bool
unfolding insert is_begin
insert_timer a m =
    let timers = insert m.heap a m.timers in
    let at_front = is_begin a timers && not m.tickled in
    (record m { timers = timers; tickled = if at_front then true else m.tickled }, at_front)

-- `addTimer(ms, cb, recurring)` for a new timer at address `a`.
pub add_timer : ℕ → ℕ → ℕ → Option ℕ → Bool → TimerManager → TimerManager × Bool
unfolding insert_timer
add_timer now a ms cb recurring m =
    let timer : Timer = record {
      recurring = recurring;
      ms = ms;
      next = (now + ms) % 2 ^ 64;
      cb = cb;
    } in
    insert_timer a (record m { heap = update m.heap a timer })

pub cancle : ℕ → TimerManager → TimerManager × Bool
cancle a m = elim (m.heap a).cb [
  | none ↦ (m, false)
  | some cb ↦
      let timer = record (m.heap a) { cb = none } in
      (record m { heap = update m.heap a timer; timers = erase m.heap a m.timers }, true)
]

-- `erase`, a new time, `insert`.
pub move_timer : ℕ → Timer → TimerManager → TimerManager
move_timer a timer m =
    let heap = update m.heap a timer in
    record m { heap = heap; timers = insert heap a (erase m.heap a m.timers) }

pub refresh : ℕ → ℕ → TimerManager → TimerManager × Bool
unfolding move_timer
refresh now a m = elim (m.heap a).cb [
  | none ↦ (m, false)
  | some cb ↦
      let timer = record (m.heap a) { next = (now + (m.heap a).ms) % 2 ^ 64 } in
      if find m.heap a m.timers then (move_timer a timer m, true) else (m, false)
]

-- The third part of the result tells whether `onTimerInsertedAtFront` is called.
pub reset : ℕ → ℕ → ℕ → Bool → TimerManager → TimerManager × Bool × Bool
unfolding insert_timer
reset now a ms from_now m =
    let start = if from_now then now else ((m.heap a).next + 2 ^ 64 - (m.heap a).ms) % 2 ^ 64 in
    let timer = record (m.heap a) { ms = ms; next = (start + ms) % 2 ^ 64 } in
    let moved =
      insert_timer a
        (record m { heap = update m.heap a timer; timers = erase m.heap a m.timers }) in
    let found : TimerManager × Bool × Bool =
      if find m.heap a m.timers then (moved.0, true, moved.1) else (m, false, false) in
    let alive : TimerManager × Bool × Bool = elim (m.heap a).cb [
      | none ↦ (m, false, false)
      | some cb ↦ found
    ] in
    if (ms == (m.heap a).ms) && not from_now then (m, true, false) else alive

-- The result is `~0ull` where there is no timer.
pub get_next_timer : ℕ → TimerManager → TimerManager × ℕ
get_next_timer now m =
    let m' = record m { tickled = false } in
    elim m.timers [
      | [] ↦ (m', 2 ^ 64 - 1)
      | a ∷ _ ↦ (m', if leb (m.heap a).next now then 0 else (m.heap a).next - now)
    ]

-- The longest prefix that passes a test, and the rest.
pub span : (ℕ → Bool) → List ℕ → List ℕ × List ℕ
span p [] = ([], [])
span p (x ∷ xs) = let (ys, zs) = span p xs in if p x then (x ∷ ys, zs) else ([], x ∷ xs)

-- `lower_bound` of a timer for `now` at address `probe`, and the loop over those of the same time.
pub split_expired : (ℕ → Timer) → ℕ → ℕ → List ℕ → List ℕ × List ℕ
split_expired heap now probe timers =
    let before_now : ℕ → Bool = λ a.
      if ltb (heap a).next now
      then true
      else if ltb now (heap a).next
      then false
      else ltb a probe in
    let (below, others) = span before_now timers in
    let (equal, rest) = span (λ a. (heap a).next == now) others in (below ++ equal, rest)

-- The loop over the expired timers.
pub fire : ℕ → List ℕ → TimerManager → TimerManager × List (Option ℕ)
fire now [] m = (m, [])
fire now (a ∷ expired) m =
    let timer = m.heap a in
    let again = update m.heap a (record timer { next = (now + timer.ms) % 2 ^ 64 }) in
    let over = update m.heap a (record timer { cb = none }) in
    let m' =
      if timer.recurring
      then record m { heap = again; timers = insert again a m.timers }
      else record m { heap = over } in
    let (m'', cbs) = fire now expired m' in (m'', timer.cb ∷ cbs)

pub list_expired_cb : ℕ → ℕ → TimerManager → TimerManager × List (Option ℕ)
unfolding split_expired
list_expired_cb now probe m =
    let (expired, rest) = split_expired m.heap now probe m.timers in
    fire now expired (record m { timers = rest })

pub detect_clock_rollover : ℕ → TimerManager → TimerManager × Bool
detect_clock_rollover now m = (
  record m { previous_time = now },
  ltb now m.previous_time && ltb now ((m.previous_time + 2 ^ 64 - 60 * 60 * 1000) % 2 ^ 64),
)

pub has_timer : TimerManager → Bool
has_timer m = elim m.timers [ [] ↦ false | _ ∷ _ ↦ true ]
