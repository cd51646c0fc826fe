-- ===== src/Fiber.antt =====
-- sylar/fiber.h and sylar/fiber.cpp: the states of a fiber. A switch of contexts hands control to
-- another fiber; what stands here is the bookkeeping before and behind it.
pub mod Life
mod Examples
use sylar_leo.Base.{ℕ, Bool, true, false, ◌&&◌, ◌||◌, not, Option, none, some, if◌then◌else◌}

pub data State : Type 0 where
  init hold exec term ready except : State

-- The entry of the context: `MainFunc` goes back by `swapOut`, `CallMainFunc` by `back`.
pub data Entry : Type 0 where
  main_func call_main_func : Entry

-- `stack` tells a fiber with a stack of its own from a thread's main fiber.
pub record Fiber : Type 0 where
  pub state : State
  pub cb : Option ℕ
  pub stack : Bool
  pub entry : Entry

-- A failed SYLAR_ASSERT stops the program.
pub data Outcome {ℓ} (A : Type ℓ) : Type ℓ where
  ok : A → Outcome A
  aborted : Outcome A

-- `TERM`, `EXCEPT` or `INIT`: the states in which a fiber may be reset or destroyed.
unfoldable pub ended : State → Bool
ended init = true
ended hold = false
ended exec = false
ended term = true
ended ready = false
ended except = true

-- The constructors.
pub new_main_fiber : Fiber
new_main_fiber = record { state = exec; cb = none; stack = false; entry = main_func }

pub new_fiber : ℕ → Bool → Fiber
new_fiber cb use_caller = record {
  state = init;
  cb = some cb;
  stack = true;
  entry = if use_caller then call_main_func else main_func;
}

pub has_cb : Fiber → Bool
has_cb f = elim f.cb [ none ↦ false | some _ ↦ true ]

unfoldable pub is_exec : State → Bool
is_exec init = false
is_exec hold = false
is_exec exec = true
is_exec term = false
is_exec ready = false
is_exec except = false

-- `TERM` or `EXCEPT`: such a fiber is not resumed.
unfoldable pub is_over : State → Bool
is_over init = false
is_over hold = false
is_over exec = false
is_over term = true
is_over ready = false
is_over except = true

-- The destructor's assertions.
pub destroy : Fiber → Outcome (Unit {0})
unfolding ended has_cb is_exec
destroy f =
    if f.stack
    then (if ended f.state then ok tt else aborted)
    else if not (has_cb f) && is_exec f.state
    then ok tt
    else aborted

-- `reset` points the context at `MainFunc`, whatever it was made for.
pub reset : Option ℕ → Fiber → Outcome Fiber
unfolding ended
reset cb f =
    if f.stack && ended f.state
    then ok (record f { cb = cb; state = init; entry = main_func })
    else aborted

pub call : Fiber → Fiber
call f = record f { state = exec }

pub swap_in : Fiber → Outcome Fiber
unfolding is_exec
swap_in f = if is_exec f.state then aborted else ok (record f { state = exec })

-- `YiledToReady` and `YiledToHold` on the current fiber.
pub yield_to_ready : Fiber → Outcome Fiber
unfolding is_exec
yield_to_ready f = if is_exec f.state then ok (record f { state = ready }) else aborted

pub yield_to_hold : Fiber → Outcome Fiber
unfolding is_exec
yield_to_hold f = if is_exec f.state then ok (record f { state = hold }) else aborted

-- `MainFunc` and `CallMainFunc` behind the callback: it returned, or threw.
pub finish : Bool → Fiber → Fiber
finish returned f =
    if returned then record f { cb = none; state = term } else record f { state = except }
