-- ===== src/Hook.antt =====
-- sylar/hook.cpp: the system calls that give the fiber's turn away in place of blocking the thread.
-- `do_io` is run on the list of what its turns meet: each turn is one call of the hooked function, and,
-- where that has to wait, what `addEvent` answers and what wakes the fiber. Where the list ends the fiber
-- still waits. An answer of the system is `done n` for n ≥ 0, or `error e` for -1 with `errno` e.
pub mod Io
pub mod Calls
mod Examples
use sylar_leo.Base.{
  ℕ, Bool, true, false, not, ◌||◌, Option, none, some, List, [], ◌∷◌, ◌++◌, ◌==◌, if◌then◌else◌,
}
use sylar_leo.FdManager.{FdCtx, no_timeout, TimeoutType, get_timeout, FdManager, failed, get}

pub data Answer : Type 0 where
  done : ℕ → Answer
  error : ℕ → Answer

abbrev pub eintr : ℕ
eintr = 4

abbrev pub ebadf : ℕ
ebadf = 9

abbrev pub eagain : ℕ
eagain = 11

abbrev pub etimedout : ℕ
etimedout = 110

abbrev pub einprogress : ℕ
einprogress = 115

-- What wakes the fiber: the event it waits for, or the callback of its timer, which cancels the event.
pub data Wake : Type 0 where
  by_event by_timer : Wake

pub record Turn : Type 0 where
  pub answer : Answer
  -- `none` where addEvent succeeds, else the `errno` that is left.
  pub event_error : Option ℕ
  pub wake : Wake

-- What the hook does, in order.
pub data Action : Type 0 where
  call_fun add_event yield_to_hold cancle_event cancle_timer : Action
  add_timer : ℕ → Action

abbrev pub has_timer : ℕ → Bool
has_timer to = not (to == no_timeout)

pub timer_start : ℕ → List Action
timer_start to = if has_timer to then add_timer to ∷ [] else []

pub timer_stop : ℕ → List Action
timer_stop to = if has_timer to then cancle_timer ∷ [] else []

-- Whether `tinfo->cancelled` is set when the fiber is back.
pub timed_out : ℕ → Wake → Bool
timed_out to by_event = false
timed_out to by_timer = has_timer to

abbrev pub Run : Type 0
Run = List Action × Option Answer

pub after : List Action → Run → Run
after actions (later, r) = (actions ++ later, r)

-- From `addConditionTimer` on, where the call has to wait. `rest` is the run from `retry`.
pub wait : ℕ → (event_error : Option ℕ) → Wake → Run → Run
unfolding timer_start timer_stop timed_out after
wait to (some e) wake rest = (timer_start to ++ add_event ∷ timer_stop to, some (error e))
wait to none wake rest =
    if timed_out to wake
    then (
      timer_start to ++ add_event ∷ yield_to_hold ∷ cancle_event ∷ timer_stop to,
      some (error etimedout),
    )
    else after (timer_start to ++ add_event ∷ yield_to_hold ∷ timer_stop to) rest

-- What follows one call of the function.
pub answered : ℕ → Turn → Answer → Run → Run
unfolding wait
answered to t (done n) rest = ([], some (done n))
answered to t (error e) rest =
    if e == eintr
    then rest
    else (if e == eagain then wait to t.event_error t.wake rest else ([], some (error e)))

pub retry : ℕ → List Turn → Run
unfolding answered
retry to [] = ([], none)
retry to (t ∷ turns) =
    let rest = retry to turns in after (call_fun ∷ []) (answered to t t.answer rest)

-- The call of the function itself.
pub direct : List Turn → Run
direct [] = ([], none)
direct (t ∷ turns) = (call_fun ∷ [], some t.answer)

-- `FdMgr::GetInstance()->get(fd)`.
pub context : ℕ → FdManager → Option FdCtx
context fd m = elim (get (some fd) false failed m) [ none ↦ none | some (m', ctx) ↦ ctx ]

-- `do_io` where the descriptor has a context.
pub do_io_with : FdCtx → TimeoutType → List Turn → Run
unfolding retry direct
do_io_with ctx type turns =
    if ctx.is_closed
    then ([], some (error ebadf))
    else (if not ctx.is_socket || ctx.user_nonblock
        then direct turns
        else retry (get_timeout type ctx) turns)

pub do_io : (hook_enable : Bool) → ℕ → TimeoutType → FdManager → List Turn → Run
unfolding do_io_with context
do_io hook_enable fd type m turns =
    let hooked : Run = elim (context fd m) [
      | none ↦ direct turns
      | some ctx ↦ do_io_with ctx type turns
    ] in
    if hook_enable then hooked else direct turns
