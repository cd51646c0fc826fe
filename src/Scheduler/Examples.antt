-- ===== src/Scheduler/Examples.antt =====
-- A queue of a task for another thread, a fiber that is running, a fiber on hold and a callback.
use sylar_leo.Base.{
  ℕ, ◌≡◌, ◌≢◌, refl, false, ◌||◌, some, none, List, [], ◌∷◌, ◌++◌, if◌then◌else◌, ◌==◌, All,
}
use sylar_leo.Fiber.{State, hold, exec, term, is_exec}
use sylar_leo.Scheduler.{
  Task, Scheduler, ran_fiber, pick, round, other_thread, is_running, is_some, set_state,
  after_fiber, resume_fiber, run_task, lower,
}
use sylar_leo.Scheduler.Queue.{Skipped, pick-some}
use sylar_leo.Scheduler.Rounds.{round_lem}

abbrev states : ℕ → State
states f = if f == 3 then exec else hold

abbrev for_thread : Task
for_thread = record { fiber = none; cb = some 1; thread = some 5 }

abbrev running : Task
running = record { fiber = some 3; cb = none; thread = none }

abbrev waiting : Task
waiting = record { fiber = some 4; cb = none; thread = none }

abbrev nothing : Task
nothing = record { fiber = none; cb = none; thread = none }

abbrev queue : List Task
queue = for_thread ∷ running ∷ waiting ∷ []

abbrev scheduler : Scheduler
scheduler = record {
  states = states;
  queue = queue;
  active = 1;
  idle = 0;
  auto_stop = false;
  stopping_flag = false;
  cb_fiber = none;
  idle_fiber = 9;
}

pick-some_example :
    (before behind : List Task) × (queue ≡ before ++ (waiting ∷ behind))
    × ((pick states 0 queue).queue ≡ before ++ behind)
    × All (Skipped states 0) before
    × ((other_thread 0 waiting || is_running states waiting) ≡ false)
unfolding pick other_thread is_running is_exec is_some
pick-some_example = pick-some states 0 queue waiting refl

-- The round resumes fiber 4, which ends.
abbrev behind : Scheduler
behind = record scheduler { queue = for_thread ∷ running ∷ []; states = set_state states 4 term }

round_lem_example : (behind.active ≡ scheduler.active) × (behind.states 4 ≢ exec)
unfolding round pick other_thread is_running run_task resume_fiber after_fiber lower is_exec is_some
round_lem_example = round_lem 0 20 term scheduler behind (ran_fiber 4) 4 refl (λ e. cc)
