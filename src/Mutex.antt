-- ===== src/Mutex.antt =====
-- sylar/mutex.h: the scoped locks. What a lock calls on its mutex is a list of actions; the mutexes, which
-- wrap those of the system, are not modelled.
mod Examples
use sylar_leo.Base.{
  ◌≡◌, refl, sym, subst, inl, inr, Bool-cases, Bool, true, false, List, [], ◌∷◌, ◌++◌, append-nil,
  if◌then◌else◌,
}

-- The call by which ScopedLockImpl, ReadScopedLockImpl and WriteScopedLockImpl take their mutex.
pub data Acquire : Type 0 where
  lock_mutex rdlock_mutex wrlock_mutex : Acquire

pub data Action : Type 0 where
  acquire : Acquire → Action
  release : Action

-- `m_locked`, and what has been called on the mutex.
pub record ScopedLock : Type 0 where
  pub kind : Acquire
  pub locked : Bool
  pub actions : List Action

-- The constructor.
unfoldable pub new_scoped_lock : Acquire → ScopedLock
new_scoped_lock kind = record { kind = kind; locked = true; actions = acquire kind ∷ [] }

unfoldable pub lock : ScopedLock → ScopedLock
lock l =
    if l.locked then l else record l { locked = true; actions = l.actions ++ acquire l.kind ∷ [] }

unfoldable pub unlock : ScopedLock → ScopedLock
unlock l = if l.locked then record l { locked = false; actions = l.actions ++ release ∷ [] } else l

-- The destructor.
unfoldable pub destroy_lock : ScopedLock → ScopedLock
unfolding unlock
destroy_lock l = unlock l

pub data LockCall : Type 0 where
  calls_lock calls_unlock : LockCall

abbrev pub run : List LockCall → ScopedLock → ScopedLock
run [] l = l
run (calls_lock ∷ calls) l = run calls (lock l)
run (calls_unlock ∷ calls) l = run calls (unlock l)

-- Takes of one kind and releases in turn, and whether the mutex is held at the end.
pub data Alternates (kind : Acquire) : Bool → List Action → Type 0 where
  not_yet : Alternates kind false []
  taken :
      {more : List Action}
      → Alternates kind false more
      → Alternates kind true (more ++ acquire kind ∷ [])
  released :
      {more : List Action}
      → Alternates kind true more
      → Alternates kind false (more ++ release ∷ [])

abbrev IsBalanced : Acquire → ScopedLock → Type 0
IsBalanced kind l = (l.kind ≡ kind) × Alternates kind l.locked l.actions

lock-IsBalanced :
    (kind k : Acquire) (locked : Bool) (actions : List Action)
    → IsBalanced kind (record { kind = k; locked = locked; actions = actions })
    → IsBalanced kind (lock (record { kind = k; locked = locked; actions = actions }))
unfolding lock
lock-IsBalanced kind k true actions (e, h) = (e, h)
lock-IsBalanced kind k false actions (e, h) =
    (e, subst (λ x. Alternates kind true (actions ++ acquire x ∷ [])) (sym e) (taken h))

unlock-IsBalanced :
    (kind k : Acquire) (locked : Bool) (actions : List Action)
    → IsBalanced kind (record { kind = k; locked = locked; actions = actions })
    → IsBalanced kind (unlock (record { kind = k; locked = locked; actions = actions }))
unfolding unlock
unlock-IsBalanced kind k true actions (e, h) = (e, released h)
unlock-IsBalanced kind k false actions (e, h) = (e, h)

run-all :
    (kind : Acquire) (calls : List LockCall) (l : ScopedLock)
    → IsBalanced kind l
    → IsBalanced kind (run calls l)
run-all kind [] l h = h
run-all kind (calls_lock ∷ calls) l h =
    run-all kind calls (lock l) (lock-IsBalanced kind l.kind l.locked l.actions h)
run-all kind (calls_unlock ∷ calls) l h =
    run-all kind calls (unlock l) (unlock-IsBalanced kind l.kind l.locked l.actions h)

unlock-free : (l : ScopedLock) → (unlock l).locked ≡ false
unfolding unlock
unlock-free l = elim (Bool-cases l.locked) [ inl on ↦ rw on refl | inr off ↦ rw off refl ]

-- Whatever `lock` and `unlock` are called in between, from its constructor to behind its destructor a
-- scoped lock takes its mutex and releases it in turn, each time by the call of its kind, and releases it
-- last.
pub destroy_lock-Alternates :
    (kind : Acquire) (calls : List LockCall)
    → Alternates kind false (destroy_lock (run calls (new_scoped_lock kind))).actions
unfolding destroy_lock new_scoped_lock
destroy_lock-Alternates kind calls =
    let l = run calls (new_scoped_lock kind) in
    let h = run-all kind calls (new_scoped_lock kind) (refl, taken not_yet) in
    subst (λ b. Alternates kind b (unlock l).actions) (unlock-free l)
      (unlock-IsBalanced kind l.kind l.locked l.actions h).1
