-- ===== src/Scheduler.antt =====
-- sylar/scheduler.h and sylar/scheduler.cpp: the queue of tasks, and one round of `run`.
-- A fiber and a callback are numbers. `m_mutex` makes each function on the queue one step.
pub mod Queue
pub mod Rounds
mod Examples
use sylar_leo.Base.{
  ℕ, ◌+◌, ◌-◌, ◌^◌, Bool, true, false, ◌&&◌, ◌||◌, not, Option, none, some, List, [], ◌∷◌, ◌++◌,
  ltb, ◌==◌, if◌then◌else◌,
}
use sylar_leo.Fiber.{
  State, init, hold, exec, term, ready, except, Outcome, ok, aborted, ended, is_exec, is_over,
}

-- `FiberAndThread`: `thread` is `none` for -1.
pub record Task : Type 0 where
  pub fiber : Option ℕ
  pub cb : Option ℕ
  pub thread : Option ℕ

unfoldable pub is_some : Option ℕ → Bool
is_some none = false
is_some (some a) = true

unfoldable pub is_empty : List Task → Bool
is_empty [] = true
is_empty (t ∷ ts) = false

-- `ft.fiber || ft.cb`.
abbrev pub has_work : Task → Bool
has_work t = is_some t.fiber || is_some t.cb

-- The queue with the task, and whether the scheduler is to be woken.
pub schedule_no_lock : Task → List Task → List Task × Bool
unfolding is_some is_empty
schedule_no_lock ft queue = (if has_work ft then queue ++ (ft ∷ []) else queue, is_empty queue)

-- `schedule(begin, end)`.
pub schedule_all : List Task → List Task → List Task × Bool
unfolding schedule_no_lock
schedule_all [] queue = (queue, false)
schedule_all (ft ∷ fts) queue =
    let (queue', woken) = schedule_no_lock ft queue in
    let (queue'', later) = schedule_all fts queue' in (queue'', woken || later)

-- What the search in `run` finds in the queue: the task, the queue without it, and `tickle_me`;
-- `failed` is its assertion, which meets a task with nothing to run.
pub record Picked : Type 0 where
  pub task : Option Task
  pub queue : List Task
  pub tickle_me : Bool
  pub failed : Bool

pub other_thread : ℕ → Task → Bool
other_thread thread t = elim t.thread [ none ↦ false | some id ↦ not (id == thread) ]

pub is_running : (ℕ → State) → Task → Bool
is_running states t = elim t.fiber [ none ↦ false | some f ↦ is_exec (states f) ]

pub pick : (ℕ → State) → ℕ → List Task → Picked
unfolding other_thread is_running is_empty
pick states thread [] = record { task = none; queue = []; tickle_me = false; failed = false }
pick states thread (t ∷ ts) =
    let rest = pick states thread ts in
    let skipped = record rest {
      queue = t ∷ rest.queue;
      tickle_me = other_thread thread t || rest.tickle_me;
    } in
    if other_thread thread t || is_running states t
    then skipped
    else if has_work t
    then record { task = some t; queue = ts; tickle_me = not (is_empty ts); failed = false }
    else record { task = none; queue = t ∷ ts; tickle_me = true; failed = true }

-- The scheduler and the locals of `run` on one thread.
pub record Scheduler : Type 0 where
  pub states : ℕ → State
  pub queue : List Task
  pub active : ℕ
  pub idle : ℕ
  pub auto_stop : Bool
  pub stopping_flag : Bool
  pub cb_fiber : Option ℕ
  pub idle_fiber : ℕ

abbrev pub set_state : (ℕ → State) → ℕ → State → ℕ → State
set_state states f s g = if g == f then s else states g

unfoldable pub stopping : Scheduler → Bool
unfolding is_empty
stopping s = s.auto_stop && s.stopping_flag && is_empty s.queue && (s.active == 0)

-- What `run` does with a fiber that is back from `swapIn` in state `back`.
pub after_fiber : ℕ → State → Scheduler → Scheduler
unfolding schedule_no_lock
after_fiber f back s =
    let requeued = schedule_no_lock (record { fiber = some f; cb = none; thread = none }) s.queue in
    elim back [
      | ready ↦ record s { states = set_state s.states f ready; queue = requeued.0 }
      | term ↦ record s { states = set_state s.states f term }
      | except ↦ record s { states = set_state s.states f except }
      | _ ↦ record s { states = set_state s.states f hold }
    ]

-- The same for the fiber that runs callbacks: it is kept for the next callback once it has ended.
pub after_callback : ℕ → State → Scheduler → Scheduler
unfolding schedule_no_lock
after_callback f back s =
    let requeued = schedule_no_lock (record { fiber = some f; cb = none; thread = none }) s.queue in
    elim back [
      | ready ↦ record s {
        states = set_state s.states f ready;
        queue = requeued.0;
        cb_fiber = none;
      }
      | term ↦ record s { states = set_state s.states f init; cb_fiber = some f }
      | except ↦ record s { states = set_state s.states f init; cb_fiber = some f }
      | _ ↦ record s { states = set_state s.states f hold; cb_fiber = none }
    ]

pub after_idle : State → Scheduler → Scheduler
after_idle back s = elim back [
  | term ↦ record s { states = set_state s.states s.idle_fiber term }
  | except ↦ record s { states = set_state s.states s.idle_fiber except }
  | _ ↦ record s { states = set_state s.states s.idle_fiber hold }
]

-- The fiber for a callback: the old one after `reset`, or the new one at `fresh`.
pub callback_fiber : ℕ → Option ℕ → (ℕ → State) → Outcome ℕ
callback_fiber fresh none states = ok fresh
callback_fiber fresh (some f) states = if ended (states f) then ok f else aborted

-- What a round of `run` did.
pub data Round : Type 0 where
  ran_fiber : ℕ → Round
  ran_callback : ℕ → ℕ → Round
  dropped : Round
  ran_idle : Round
  left : Round

-- Resuming fiber `f`, which comes back from `swapIn` in state `back`.
pub resume_fiber : ℕ → State → Scheduler → Outcome (Scheduler × Round)
unfolding after_fiber
resume_fiber f back s =
    if is_exec (s.states f) then aborted else ok (after_fiber f back s, ran_fiber f)

pub run_callback : ℕ → ℕ → State → Scheduler → Outcome (Scheduler × Round)
unfolding callback_fiber after_callback
run_callback cb fresh back s = elim (callback_fiber fresh s.cb_fiber s.states) [
  | aborted ↦ aborted
  | ok f ↦ ok (after_callback f back s, ran_callback f cb)
]

-- The branches of `run` for a task that the search found.
pub run_task : Task → ℕ → State → Scheduler → Outcome (Scheduler × Round)
unfolding resume_fiber run_callback is_over
run_task t fresh back s =
    let other : Outcome (Scheduler × Round) = elim t.cb [
      | none ↦ ok (s, dropped)
      | some cb ↦ run_callback cb fresh back s
    ] in
    elim t.fiber [
      | none ↦ other
      | some f ↦ if is_over (s.states f) then other else resume_fiber f back s
    ]

pub lower : Outcome (Scheduler × Round) → Outcome (Scheduler × Round)
lower aborted = aborted
lower (ok (s, r)) = ok (record s { active = s.active - 1 }, r)

pub run_idle : State → Scheduler → Outcome (Scheduler × Round)
unfolding after_idle
run_idle back s = elim (s.states s.idle_fiber) [
  | term ↦ ok (s, left)
  | exec ↦ aborted
  | _ ↦ ok (after_idle back s, ran_idle)
]

-- One round. `m_activeThreadCount` is raised with the task in hand, and lowered by each branch.
-- `fresh` is the fiber made if a callback needs a new one; `back` is the state in which the fiber that
-- the round resumes hands control back.
pub round : ℕ → ℕ → State → Scheduler → Outcome (Scheduler × Round)
unfolding pick run_task lower run_idle
round thread fresh back s =
    let p = pick s.states thread s.queue in
    let chosen : Outcome (Scheduler × Round) = elim p.task [
      | some t ↦ lower (run_task t fresh back (record s { queue = p.queue; active = s.active + 1 }))
      | none ↦ run_idle back s
    ] in
    if p.failed then aborted else chosen
