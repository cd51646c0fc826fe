-- ===== src/IoManager/Adding.antt =====
-- What `addEvent` does to the contexts and to the count.
use sylar_leo.Base.{ℕ, ◌+◌, ◌≡◌, false, Option, none, some, if◌then◌else◌}
use sylar_leo.IoManager.{
  Event, read, EventContext, FdContext, IoManager, Request, ctl_mod, ctl_add, any, with_event,
}
use sylar_leo.IoManager.Pending.{IsConsistent, registered}

-- What `addEvent` makes of the context, and what it asks epoll for.
abbrev pub waiting_for : Option ℕ → ℕ → ℕ → EventContext
waiting_for (some f) s fiber = record { scheduler = some s; fiber = none; cb = some f }
waiting_for none s fiber = record { scheduler = some s; fiber = some fiber; cb = none }

abbrev pub add_request : Event → (fd : ℕ) → FdContext → Request
add_request event fd c = record {
  op = if any c.events then ctl_mod else ctl_add;
  fd = fd;
  flags = with_event (with_event c.events event) read;
  edge = false;
}

-- A context to which a new event was added.
pub record Added (event : Event) (c c' : FdContext) : Type 0 where
  pub flags : c'.events ≡ with_event c.events event
  pub consistent : IsConsistent c'
  pub one_more : registered c' ≡ registered c + 1
