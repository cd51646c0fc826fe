-- ===== src/Scheduler/Queue.antt =====
-- The queue of the scheduler: what is put in, and what the search of `run` takes out.
use sylar_leo.Base.{
  ℕ, ◌≡◌, refl, ◌∙◌, sym, ap, inl, inr, Bool, true, false, ◌&&◌, ◌||◌, not, none, some, List, [],
  ◌∷◌, ◌++◌, All, Bool-cases, append_assoc, append-nil, arith, if◌then◌else◌,
}
use sylar_leo.Fiber.{State}
use sylar_leo.Scheduler.{
  Task, has_work, is_empty, schedule_no_lock, schedule_all, other_thread, is_running, pick,
}

-- The tasks that have something to run.
abbrev pub runnable : List Task → List Task
runnable [] = []
runnable (t ∷ ts) = if has_work t then t ∷ runnable ts else runnable ts

-- One task more.
schedule_one :
    (t : Task) (ts queue : List Task)
    → ((schedule_no_lock t queue).0 ++ runnable ts ≡ queue ++ runnable (t ∷ ts))
      × ((schedule_no_lock t queue).1 ≡ is_empty queue)
      × (((is_empty queue || is_empty (schedule_no_lock t queue).0) ≡ is_empty queue))
unfolding schedule_no_lock is_empty
schedule_one t ts queue = elim (Bool-cases (has_work t)) [
  | inl full ↦ rw full (append_assoc queue (t ∷ []) (runnable ts), refl, grown queue)
  | inr nothing ↦ rw nothing (refl, refl, twice (is_empty queue))
]
  where
    grown : (q : List Task) → (is_empty q || is_empty (q ++ (t ∷ []))) ≡ is_empty q
    grown [] = refl
    grown (x ∷ q) = refl

    twice : (b : Bool) → (b || b) ≡ b
    twice true = refl
    twice false = refl

-- Scheduling a range puts its tasks behind the queue in their order, without the empty ones, and
-- asks for a wake-up exactly when the queue was empty and the range is not.
pub schedule_all_lem :
    (fts queue : List Task)
    → ((schedule_all fts queue).0 ≡ queue ++ runnable fts)
      × ((schedule_all fts queue).1 ≡ (is_empty queue && not (is_empty fts)))
unfolding schedule_all is_empty
schedule_all_lem [] queue = (sym (append-nil queue), ground arith)
schedule_all_lem (t ∷ fts) queue =
    let (placed, woken, grown) = schedule_one t fts queue in
    let (e, w) = schedule_all_lem fts (schedule_no_lock t queue).0 in
    (e ∙ placed, ground (arith, woken, grown, w))

-- Why the search passes over a task.
abbrev pub Skipped : (ℕ → State) → ℕ → Task → Type 0
Skipped states thread t = (other_thread thread t || is_running states t) ≡ true

picked_first :
    (states : ℕ → State) (thread : ℕ) (x : Task) (queue : List Task) (t : Task)
    → (other_thread thread x || is_running states x) ≡ false
    → (pick states thread (x ∷ queue)).task ≡ some t
    → (has_work x ≡ true) × (x ≡ t)
unfolding pick
picked_first states thread x queue t hit e = elim (Bool-cases (has_work x)) [
  | inl full ↦ (full, ground (arith, hit, full, e))
  | inr empty ↦ absurd (ground (arith, hit, empty, e))
]

-- Where the search takes a task, it is the first that this thread may run and whose fiber is not
-- running, and all others stay in the queue in their order.
pub pick-some :
    (states : ℕ → State) (thread : ℕ) (queue : List Task) (t : Task)
    → (pick states thread queue).task ≡ some t
    → (before behind : List Task) × (queue ≡ before ++ (t ∷ behind))
      × ((pick states thread queue).queue ≡ before ++ behind)
      × All (Skipped states thread) before
      × ((other_thread thread t || is_running states t) ≡ false)
unfolding pick
pick-some states thread [] t e = cc
pick-some states thread (x ∷ queue) t e =
    elim (Bool-cases (other_thread thread x || is_running states x)) [
      | inl skip ↦
          let (before, behind, p, q, s, n) =
            pick-some states thread queue t (ground (arith, skip, e)) in
          (x ∷ before, behind, ap (λ l. x ∷ l) p, ground (arith, skip, q), (skip, s), n)
      | inr hit ↦
          let (full, same) = picked_first states thread x queue t hit e in
          (
            [],
            queue,
            ap (λ y. y ∷ queue) same,
            ground (arith, hit, full),
            tt,
            ground (arith, hit, same),
          )
    ]

-- Where the search takes none from a queue of tasks that have something to run, it leaves the queue as it is, and every task in it is to be passed over.
pub pick-none :
    (states : ℕ → State) (thread : ℕ) (queue : List Task)
    → (pick states thread queue).task ≡ none
    → All (λ t. has_work t ≡ true) queue
    → ((pick states thread queue).queue ≡ queue) × All (Skipped states thread) queue
unfolding pick
pick-none states thread [] e w = (refl, tt)
pick-none states thread (x ∷ queue) e w =
    elim (Bool-cases (other_thread thread x || is_running states x)) [
      | inl skip ↦
          let (q, s) = pick-none states thread queue (ground (arith, skip, e)) w.1 in
          (ground (arith, skip, q), (skip, s))
      | inr hit ↦ absurd (ground (arith, hit, e, w.0))
    ]

-- The assertion in the search holds on a queue of tasks that have something to run.
pub pick_asserts :
    (states : ℕ → State) (thread : ℕ) (queue : List Task)
    → All (λ t. has_work t ≡ true) queue
    → (pick states thread queue).failed ≡ false
unfolding pick
pick_asserts states thread [] w = refl
pick_asserts states thread (x ∷ queue) w =
    elim (Bool-cases (other_thread thread x || is_running states x)) [
      | inl skip ↦ rw skip (pick_asserts states thread queue w.1)
      | inr hit ↦ rw (hit, w.0)
    ]
