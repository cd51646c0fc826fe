-- ===== src/IoManager/Idle.antt =====
-- sylar/iomanager.cpp: the loop of `idle`, which composes the timers, the scheduler and the events. What
-- `epoll_wait` returns is an argument. The tasks that `triggerEvent` schedules stay in the log of the
-- IoManager, since each names a scheduler of its own.
pub mod Waiting
mod Examples
use sylar_leo.Base.{
  ℕ, zero, suc, ◌+◌, ◌-◌, ◌%◌, ◌^◌, Bool, true, false, ◌&&◌, not, Option, none, some, List, [], ◌∷◌,
  map, ltb, leb, ◌==◌, if◌then◌else◌,
}
use sylar_leo.Fiber.{Outcome, ok, aborted}
use sylar_leo.Timer.{TimerManager, get_next_timer, list_expired_cb}
use sylar_leo.Scheduler.{Task, Scheduler, stopping, schedule_all}
use sylar_leo.IoManager.{Flags, IoManager, handle_event}

-- The time-out of one call of `epoll_wait`: a negative one waits for ever.
pub data EpollWait : Type 0 where
  milliseconds : ℕ → EpollWait
  for_ever : EpollWait

abbrev pub no_timer : ℕ
no_timer = 2 ^ 64 - 1

abbrev pub max_timeout : ℕ
max_timeout = 3000

-- `(int) timeout` is negative.
abbrev pub is_negative : ℕ → Bool
is_negative timeout = leb (2 ^ 31) (timeout % 2 ^ 32)

-- `(int) timeout > MAX_TIMEOUT`.
abbrev pub is_longer : ℕ → Bool
is_longer timeout = not (is_negative timeout) && ltb max_timeout (timeout % 2 ^ 32)

-- The time-out for the next call, as it is computed in front of it.
unfoldable pub clamp : ℕ → ℕ
clamp next_timeout =
    if next_timeout == no_timer
    then max_timeout
    else if is_longer next_timeout
    then max_timeout
    else next_timeout

-- `(int) next_timeout` as `epoll_wait` takes it.
unfoldable pub epoll_timeout : ℕ → EpollWait
epoll_timeout next_timeout =
    if is_negative next_timeout then for_ever else milliseconds (next_timeout % 2 ^ 32)

-- The calls of `epoll_wait`, of which the first so many are interrupted.
abbrev pub wait_calls : (interrupts : ℕ) → (next_timeout : ℕ) → List EpollWait
wait_calls zero next_timeout = epoll_timeout (clamp next_timeout) ∷ []
wait_calls (suc interrupts) next_timeout =
    epoll_timeout (clamp next_timeout) ∷ wait_calls interrupts (clamp next_timeout)

pub record Idle : Type 0 where
  pub timers : TimerManager
  pub scheduler : Scheduler
  pub io : IoManager

-- `stopping(timeout)`, with the time-out.
unfoldable pub stopping_timeout : (now : ℕ) → Idle → Bool × (ℕ × Idle)
stopping_timeout now s =
    let (timers, timeout) = get_next_timer now s.timers in
    (
      (timeout == no_timer) && (s.io.pending == 0) && stopping s.scheduler,
      (timeout, record s { timers = timers }),
    )

-- `stopping()`.
unfoldable pub io_stopping : Idle → Bool
io_stopping s = stopping s.scheduler && (s.io.pending == 0)

-- An event that `epoll_wait` reports: the pipe of `tickle`, or the context of a descriptor with the flags
-- reported, whether an error is, and whether `epoll_ctl` returns 0.
pub data Reported : Type 0 where
  tickled : Reported
  on_fd : (fd : ℕ) → (flags : Flags) → (error done : Bool) → Reported

abbrev pub handle_one : Reported → IoManager → Outcome IoManager
handle_one tickled io = ok io
handle_one (on_fd fd flags error done) io = handle_event fd flags error done io

abbrev pub handle_rest : (IoManager → Outcome IoManager) → Outcome IoManager → Outcome IoManager
handle_rest rest aborted = aborted
handle_rest rest (ok io) = rest io

abbrev pub handle_all : List Reported → IoManager → Outcome IoManager
handle_all [] io = ok io
handle_all (r ∷ reported) io = handle_rest (handle_all reported) (handle_one r io)

-- A task for a callback, on any thread.
abbrev pub cb_task : Option ℕ → Task
cb_task cb = record { fiber = none; cb = cb; thread = none }

-- `listExpiredCb` and the scheduling of what it hands out.
unfoldable pub schedule_expired : (now probe : ℕ) → Idle → Idle
schedule_expired now probe s =
    let (timers, cbs) = list_expired_cb now probe s.timers in
    let (queue, woken) = schedule_all (map cb_task cbs) s.scheduler.queue in
    record s { timers = timers; scheduler = record s.scheduler { queue = queue } }

-- How a turn of the loop ends: the loop is left, an assertion fails, or the fiber is swapped out.
pub data Turn : Type 0 where
  leaves : Idle → Turn
  fails : Turn
  yields : (waits : List EpollWait) → Idle → Turn

abbrev pub turn_end : List EpollWait → Idle → Outcome IoManager → Turn
turn_end waits s aborted = fails
turn_end waits s (ok io) = yields waits (record s { io = io })

-- A turn of the loop, from the clock when it begins and when `epoll_wait` has returned.
unfoldable pub turn : (before after probe interrupts : ℕ) → List Reported → Idle → Turn
unfolding stopping_timeout schedule_expired
turn before after probe interrupts reported s =
    let (stops, (timeout, s')) = stopping_timeout before s in
    let s'' = schedule_expired after probe s' in
    if stops
    then leaves s'
    else turn_end (wait_calls interrupts timeout) s'' (handle_all reported s''.io)
