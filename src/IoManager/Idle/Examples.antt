-- ===== src/IoManager/Idle/Examples.antt =====
-- An IOManager with one timer, due at 110, whose wait is interrupted once and ends at 120.
use sylar_leo.Base.{ℕ, true, false, some, none, [], ◌∷◌, arith, if◌then◌else◌, ◌==◌}
use sylar_leo.Fiber.{hold}
use sylar_leo.Timer.{Timer, TimerManager}
use sylar_leo.Timer.Manager.{IsValid}
use sylar_leo.IoManager.Idle.{Idle, tickled, turn}
use sylar_leo.IoManager.Idle.Waiting.{Ends, turn_lem}

abbrev heap : ℕ → Timer
heap a =
    if a == 1
    then record { recurring = false; ms = 10; next = 110; cb = some 7 }
    else record { recurring = false; ms = 0; next = 0; cb = none }

abbrev one : TimerManager
one = record { heap = heap; timers = 1 ∷ []; tickled = false; previous_time = 100 }

one-IsValid : IsValid one
one-IsValid = record { sorted = (tt, tt); armed = ((λ e. cc), tt) }

abbrev quiet : Idle
quiet = record {
  timers = one;
  scheduler = record {
    states = λ f. hold;
    queue = [];
    active = 0;
    idle = 1;
    auto_stop = true;
    stopping_flag = true;
    cb_fiber = none;
    idle_fiber = 0;
  };
  io = record { contexts = []; pending = 0; scheduled = []; requests = [] };
}

turn_lem_example : Ends 100 120 quiet (turn 100 120 0 1 (tickled ∷ []) quiet)
turn_lem_example = turn_lem 100 120 0 1 (tickled ∷ []) quiet one-IsValid ((omega arith, tt))
