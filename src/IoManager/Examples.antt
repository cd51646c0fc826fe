-- ===== src/IoManager/Examples.antt =====
-- Descriptor 0 waits for nothing, descriptor 1 to write, with callback 5 on scheduler 2.
use sylar_leo.Base.{◌+◌, ◌≡◌, refl, true, false, ◌&&◌, ◌||◌, some, none, [], ◌∷◌, inr}
use sylar_leo.Fiber.{ok}
use sylar_leo.IoManager.{FdContext, IoManager, Flags, no_flags, empty_context, handle_event}
use sylar_leo.IoManager.Pending.{IsValid, bit}
use sylar_leo.IoManager.Removal.{handle_event_lem}

abbrev unused : FdContext
unused = record {
  read_context = empty_context;
  write_context = empty_context;
  fd = 0;
  events = no_flags;
}

abbrev writing : FdContext
writing = record {
  read_context = empty_context;
  write_context = record { scheduler = some 2; fiber = none; cb = some 5 };
  fd = 1;
  events = record { reads = false; writes = true };
}

abbrev manager : IoManager
manager = record { contexts = unused ∷ writing ∷ []; pending = 1; scheduled = []; requests = [] }

manager-IsValid : IsValid manager
manager-IsValid = record {
  consistent = (
    record { reading = (refl, refl, refl); writing = (refl, refl, refl) },
    (record { reading = (refl, refl, refl); writing = ((2, refl), inr (5, refl, refl)) }, tt),
  );
  counted = refl;
}

abbrev reported : Flags
reported = record { reads = false; writes = true }

handle_event_lem_example :
    (m' : IoManager) × (handle_event 1 reported true true manager ≡ ok m')
    × IsValid m'
    × (manager.pending
        ≡ m'.pending
          + bit (reported.reads || (true && writing.events.reads))
          + bit (reported.writes || (true && writing.events.writes)))
handle_event_lem_example =
    handle_event_lem 1 reported true writing manager manager-IsValid refl (λ e. e) (λ e. e)
