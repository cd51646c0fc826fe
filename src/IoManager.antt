-- ===== src/IoManager.antt =====
-- sylar/iomanager.h and sylar/iomanager.cpp: the contexts of the file descriptors and the count of
-- pending events. The mutex of a context makes each function on it one step. The result of
-- `epoll_ctl` is an argument of each call (`done`: it returned 0), and each request is logged.
pub mod Pending
pub mod Adding
pub mod Removal
pub mod Idle
mod Examples
use sylar_leo.Base.{
  ℕ, suc, ◌+◌, ◌-◌, ◌*◌, ◌/◌, ◌^◌, Bool, true, false, ◌&&◌, ◌||◌, not, Option, none, some, List, [],
  ◌∷◌, ◌++◌, leb, ltb, ◌==◌, if◌then◌else◌, length, get_elem?, set, take,
}
use sylar_leo.Fiber.{Outcome, ok, aborted}

-- READ is 0x1 and WRITE is 0x4, as EPOLLIN and EPOLLOUT; a value of several flags is `Flags`.
pub data Event : Type 0 where
  no_event read write : Event

pub record Flags : Type 0 where
  pub reads : Bool
  pub writes : Bool

pub record EventContext : Type 0 where
  pub scheduler : Option ℕ
  pub fiber : Option ℕ
  pub cb : Option ℕ

pub record FdContext : Type 0 where
  pub read_context : EventContext
  pub write_context : EventContext
  pub fd : ℕ
  pub events : Flags

pub data EpollOp : Type 0 where
  ctl_add ctl_mod ctl_del : EpollOp

-- One call of `epoll_ctl`: `edge` is EPOLLET.
pub record Request : Type 0 where
  pub op : EpollOp
  pub fd : ℕ
  pub flags : Flags
  pub edge : Bool

-- A call of `schedule` on a scheduler, with the fiber or the callback that was swapped in.
pub record Scheduled : Type 0 where
  pub scheduler : ℕ
  pub fiber : Option ℕ
  pub cb : Option ℕ

pub record IoManager : Type 0 where
  pub contexts : List FdContext
  pub pending : ℕ
  pub scheduled : List Scheduled
  pub requests : List Request

abbrev pub no_flags : Flags
no_flags = record { reads = false; writes = false }

abbrev pub has : Flags → Event → Bool
has e no_event = false
has e read = e.reads
has e write = e.writes

-- `events | event` and `events & ~event`.
abbrev pub with_event : Flags → Event → Flags
with_event e no_event = e
with_event e read = record e { reads = true }
with_event e write = record e { writes = true }

abbrev pub without : Flags → Event → Flags
without e no_event = e
without e read = record e { reads = false }
without e write = record e { writes = false }

abbrev pub any : Flags → Bool
any e = e.reads || e.writes

abbrev pub empty_context : EventContext
empty_context = record { scheduler = none; fiber = none; cb = none }

-- `getContext` asserts that the event is READ or WRITE.
abbrev pub get_context : Event → FdContext → Outcome EventContext
get_context no_event c = aborted
get_context read c = ok c.read_context
get_context write c = ok c.write_context

abbrev pub set_context : Event → EventContext → FdContext → FdContext
set_context no_event x c = c
set_context read x c = record c { read_context = x }
set_context write x c = record c { write_context = x }

-- `resetContext`.
abbrev pub reset_context : Event → FdContext → FdContext
reset_context event c = set_context event empty_context c

-- `triggerEvent`: the context loses what was scheduled, by the swap, and its scheduler. A null scheduler
-- would be dereferenced; that and a failed assertion are `aborted`.
trigger_context : Event → EventContext → FdContext → Outcome (FdContext × Scheduled)
trigger_context event x c = elim x.scheduler [
  | none ↦ aborted
  | some s ↦ elim x.cb [
    | some f ↦ ok (
      set_context event (record x { scheduler = none; cb = none }) c,
      record { scheduler = s; fiber = none; cb = some f },
    )
    | none ↦ ok (
      set_context event (record x { scheduler = none; fiber = none }) c,
      record { scheduler = s; fiber = x.fiber; cb = none },
    )
  ]
]

pub trigger_event : Event → FdContext → Outcome (FdContext × Scheduled)
unfolding trigger_context
trigger_event event c =
    let c' = record c { events = without c.events event } in
    let triggered : Outcome (FdContext × Scheduled) = elim (get_context event c') [
      | aborted ↦ aborted
      | ok x ↦ trigger_context event x c'
    ] in
    if has c.events event then triggered else aborted

-- The atomic counter: `--` wraps at 0.
abbrev pub decrement : ℕ → ℕ
decrement n = if n == 0 then 2 ^ 64 - 1 else n - 1

pub new_context : ℕ → FdContext
new_context fd = record {
  read_context = empty_context;
  write_context = empty_context;
  fd = fd;
  events = no_flags;
}

-- `n` new contexts, for the descriptors from `fd` on.
pub new_contexts : ℕ → ℕ → List FdContext
new_contexts fd Prim.Native.Nat.zero = []
new_contexts fd (suc n) = new_context fd ∷ new_contexts (fd + 1) n

pub context_resize : ℕ → List FdContext → List FdContext
unfolding new_contexts
context_resize size contexts =
    take size contexts ++ new_contexts (length contexts) (size - length contexts)

-- The context of `fd` with room made for it: `contextResize(fd * 1.5)`.
pub contexts_for : ℕ → List FdContext → List FdContext
unfolding context_resize
contexts_for fd contexts =
    if ltb fd (length contexts) then contexts else context_resize (fd * 3 / 2) contexts

-- `addEvent` on the context: what it waits for is `cb`, or the current fiber. The flags asked for are
-- `EPOLLIN | events | event`, without EPOLLET.
pub add_to_context :
    Event
    → Option ℕ
    → Option ℕ
    → ℕ
    → Bool
    → (fd : ℕ) → FdContext
    → Outcome (FdContext × Request × Bool)
add_to_context event cb scheduler fiber done fd c =
    let request : Request = record {
      op = if any c.events then ctl_mod else ctl_add;
      fd = fd;
      flags = with_event (with_event c.events event) read;
      edge = false;
    } in
    let waiting : EventContext = elim cb [
      | some f ↦ record { scheduler = scheduler; fiber = none; cb = some f }
      | none ↦ record { scheduler = scheduler; fiber = some fiber; cb = none }
    ] in
    let added = set_context event waiting (record c { events = with_event c.events event }) in
    let registered : Outcome (FdContext × Request × Bool) = elim (get_context event c) [
      | aborted ↦ aborted
      | ok x ↦ elim x.scheduler [
        | some _ ↦ aborted
        | none ↦ elim x.fiber [
          | some _ ↦ aborted
          | none ↦ elim x.cb [ some _ ↦ aborted | none ↦ ok (added, request, true) ]
        ]
      ]
    ] in
    if has c.events event then aborted else if done then registered else ok (c, request, false)

pub add_event : ℕ → Event → Option ℕ → Option ℕ → ℕ → Bool → IoManager → Outcome (IoManager × Bool)
unfolding add_to_context contexts_for
add_event fd event cb scheduler fiber done m =
    let m' = record m { contexts = contexts_for fd m.contexts } in
    elim (get_elem? m'.contexts fd) [
      | none ↦ aborted
      | some c ↦ elim (add_to_context event cb scheduler fiber done fd c) [
        | aborted ↦ aborted
        | ok (c', request, added) ↦ ok (
          record m' {
            contexts = set m'.contexts fd c';
            pending = if added then m.pending + 1 else m.pending;
            requests = m.requests ++ (request ∷ []);
          },
          added,
        )
      ]
    ]

-- The request of `delEvent` and `cancleEvent`: the choice of `op` looks at the old events.
abbrev pub removal : Event → FdContext → Request
removal event c = record {
  op = if any c.events then ctl_mod else ctl_del;
  fd = c.fd;
  flags = without c.events event;
  edge = true;
}

abbrev pub logged : Request → IoManager → IoManager
logged r m = record m { requests = m.requests ++ (r ∷ []) }

pub del_event : ℕ → Event → Bool → IoManager → Outcome (IoManager × Bool)
del_event fd event done m = elim (get_elem? m.contexts fd) [
  | none ↦ ok (m, false)
  | some c ↦
      let c' = reset_context event (record c { events = without c.events event }) in
      let m' = logged (removal event c) m in
      if not (has c.events event)
      then ok (m, false)
      else if not done
      then ok (m', false)
      else ok (record m' { contexts = set m.contexts fd c'; pending = decrement m.pending }, true)
]

-- Triggering an event of the context at `fd` takes it off the count.
pub trigger : ℕ → Event → FdContext → IoManager → Outcome (IoManager × FdContext)
trigger fd event c m = elim (trigger_event event c) [
  | aborted ↦ aborted
  | ok (c', s) ↦ ok (
    record m {
      contexts = set m.contexts fd c';
      pending = decrement m.pending;
      scheduled = m.scheduled ++ (s ∷ []);
    },
    c',
  )
]

pub cancle_event : ℕ → Event → Bool → IoManager → Outcome (IoManager × Bool)
unfolding trigger
cancle_event fd event done m = elim (get_elem? m.contexts fd) [
  | none ↦ ok (m, false)
  | some c ↦
      let m' = logged (removal event c) m in
      let cancelled : Outcome (IoManager × Bool) = elim (trigger fd event c m') [
        | aborted ↦ aborted
        | ok (m'', _) ↦ ok (m'', true)
      ] in
      if not (has c.events event)
      then ok (m, false)
      else if not done
      then ok (m', false)
      else cancelled
]

-- `if(events & event) { triggerEvent(event); --m_pendingEventCount; }`, for the flags that are given.
pub trigger_if : Bool → ℕ → Event → FdContext → IoManager → Outcome (IoManager × FdContext)
unfolding trigger
trigger_if test fd event c m = if test then trigger fd event c m else ok (m, c)

pub trigger_both : Flags → ℕ → FdContext → IoManager → Outcome (IoManager × FdContext)
unfolding trigger_if
trigger_both flags fd c m = elim (trigger_if flags.reads fd read c m) [
  | aborted ↦ aborted
  | ok (m', c') ↦ trigger_if flags.writes fd write c' m'
]

pub cancle_all : ℕ → Bool → IoManager → Outcome (IoManager × Bool)
unfolding trigger_both
cancle_all fd done m = elim (get_elem? m.contexts fd) [
  | none ↦ ok (m, false)
  | some c ↦
      let m' = logged (record { op = ctl_del; fd = c.fd; flags = no_flags; edge = false }) m in
      let cancelled : Outcome (IoManager × Bool) = elim (trigger_both c.events fd c m') [
        | aborted ↦ aborted
        | ok (m'', c') ↦ if any c'.events then aborted else ok (m'', true)
      ] in
      if not (any c.events) then ok (m, false) else if not done then ok (m', false) else cancelled
]

-- One event that `epoll_wait` returned in `idle`, for the context at `fd`: `error` is EPOLLERR or EPOLLHUP.
pub handle_event : ℕ → Flags → Bool → Bool → IoManager → Outcome IoManager
unfolding trigger_both
handle_event fd reported error done m = elim (get_elem? m.contexts fd) [
  | none ↦ aborted
  | some c ↦
      let real : Flags = record {
        reads = reported.reads || (error && c.events.reads);
        writes = reported.writes || (error && c.events.writes);
      } in
      let left : Flags = record {
        reads = c.events.reads && not real.reads;
        writes = c.events.writes && not real.writes;
      } in
      let m' =
        logged
          (record {
            op = if any left then ctl_mod else ctl_del;
            fd = c.fd;
            flags = left;
            edge = true;
          })
          m in
      let handled : Outcome IoManager = elim (trigger_both real fd c m') [
        | aborted ↦ aborted
        | ok (m'', _) ↦ ok m''
      ] in
      if not ((c.events.reads && real.reads) || (c.events.writes && real.writes))
      then ok m
      else if not done
      then ok m'
      else handled
]
