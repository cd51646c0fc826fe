-- ===== src/Fiber/Life.antt =====
-- The life of a fiber as a step relation.
use sylar_leo.Base.{ℕ, ◌≡◌, Bool, true, false, none, some, not, ◌||◌, arith}
use sylar_leo.Fiber.{
  State, init, hold, exec, term, ready, except, Fiber, ok, new_fiber, reset, swap_in,
  yield_to_ready, yield_to_hold, finish, has_cb, is_over, ended, is_exec,
}

-- What the scheduler and the fiber itself do to a fiber with a stack of its own. `run` resumes none
-- that is over. `parked`: the fiber swapped out in the state EXEC, and `run` puts it on hold. `cleared`:
-- `run` calls `reset(nullptr)` on its fiber for callbacks once that is over.
pub data Step (f g : Fiber) : Type 0 where
  resumed : is_over f.state ≡ false → swap_in f ≡ ok g → Step f g
  yielded : yield_to_ready f ≡ ok g → Step f g
  held : yield_to_hold f ≡ ok g → Step f g
  parked : f.state ≡ exec → g ≡ record f { state = hold } → Step f g
  finished : (returned : Bool) → f.state ≡ exec → g ≡ finish returned f → Step f g
  reused : (cb : ℕ) → reset (some cb) f ≡ ok g → Step f g
  cleared : is_over f.state ≡ true → reset none f ≡ ok g → Step f g

pub data Reach (f : Fiber) : Fiber → Type 0 where
  here : Reach f f
  next : {g h : Fiber} → Reach f g → Step g h → Reach f h

abbrev pub terminated : State → Bool
terminated init = false
terminated hold = false
terminated exec = false
terminated term = true
terminated ready = false
terminated except = false

-- Whether a fiber was reset to no callback, and to none since: what the last step of that kind was.
abbrev pub emptied : {f g : Fiber} → Reach f g → Bool
emptied here = false
emptied (next r (resumed o e)) = emptied r
emptied (next r (yielded e)) = emptied r
emptied (next r (held e)) = emptied r
emptied (next r (parked s e)) = emptied r
emptied (next r (finished returned s e)) = emptied r
emptied (next r (reused cb e)) = false
emptied (next r (cleared o e)) = true

-- The fiber has its stack, and is without a callback exactly when it has terminated or was emptied.
pub record IsAlive (was_emptied : Bool) (f : Fiber) : Type 0 where
  pub stack : f.stack ≡ true
  pub lacking : has_cb f ≡ not (terminated f.state || was_emptied)

Step-IsAlive :
    {f g h : Fiber} (r : Reach f g) (s : Step g h)
    → IsAlive (emptied r) g
    → IsAlive (emptied (next r s)) h
unfolding reset swap_in yield_to_ready yield_to_hold finish has_cb is_over
Step-IsAlive r (resumed o e) a = ground arith
Step-IsAlive r (yielded e) a = ground arith
Step-IsAlive r (held e) a = ground arith
Step-IsAlive r (parked s e) a = ground arith
Step-IsAlive r (finished returned s e) a = ground arith
Step-IsAlive r (reused cb e) a = ground arith
Step-IsAlive r (cleared o e) a = ground arith

-- A fiber made for a callback has its stack after any sequence of steps, and is without a callback
-- exactly when it has terminated, or when `reset(nullptr)` was the last `reset` that it had.
pub Reach-IsAlive :
    (cb : ℕ) (use_caller : Bool) {g : Fiber} (r : Reach (new_fiber cb use_caller) g)
    → IsAlive (emptied r) g
Reach-IsAlive cb use_caller here = unfold new_fiber has_cb in ground arith
Reach-IsAlive cb use_caller (next r s) = Step-IsAlive r s (Reach-IsAlive cb use_caller r)

-- The step that a fiber takes which has terminated or failed leaves it in the state INIT.
pub over-Step : {f g : Fiber} → Step f g → is_over f.state ≡ true → g.state ≡ init
unfolding reset swap_in yield_to_ready yield_to_hold is_over ended is_exec
over-Step (resumed o e) h = ground arith
over-Step (yielded e) h = ground arith
over-Step (held e) h = ground arith
over-Step (parked s e) h = ground arith
over-Step (finished returned s e) h = ground arith
over-Step (reused cb e) h = ground arith
over-Step (cleared o e) h = ground arith
