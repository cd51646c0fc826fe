-- ===== src/Timer/Expiry.antt =====
-- `getNextTimer` and `listExpiredCb`.
use sylar_leo.Base.{
  leb, ℕ, suc, ◌+◌, ◌-◌, ◌%◌, ◌^◌, ◌≤◌, ◌<◌, ◌≡◌, ◌≢◌, refl, ◌∙◌, sym, ap, ap₂, subst, inl, inr,
  Bool, true, false, Option, none, List, [], ◌∷◌, ◌++◌, ◌==◌, if◌then◌else◌, All, All-append, map,
  append_assoc, Bool-cases, if_both, arith,
}
use sylar_leo.Timer.{
  Timer, TimerManager, update, less, insert, get_next_timer, span, split_expired, fire,
  list_expired_cb,
}
use sylar_leo.Timer.Order.{IsSorted, NotIn, update-IsSorted, All-insert, All-updated, above-NotIn}
use sylar_leo.Timer.Manager.{Armed, IsValid, inserted}

abbrev pub Due : (ℕ → Timer) → ℕ → ℕ → Type 0
Due heap now a = (heap a).next ≤ now

-- What the split leaves: a prefix and a rest.
pub record Split (P : ℕ → Type 0) (Q : ℕ → Type 0) (heap : ℕ → Timer) (xs ys zs : List ℕ)
    : Type 0 where
  pub joined : ys ++ zs ≡ xs
  pub front : All P ys
  pub back : All Q zs
  pub sorted : IsSorted heap zs

later_than :
    (heap : ℕ → Timer) (now a : ℕ) (xs : List ℕ)
    → now ≤ (heap a).next
    → All (λ y. less heap a y ≡ true) xs
    → All (λ y. now ≤ (heap y).next) xs
later_than heap now a [] h s = tt
later_than heap now a (x ∷ xs) h s = (ground (arith, s.0), later_than heap now a xs h s.1)

span_before :
    (heap : ℕ → Timer) (now : ℕ) (p : ℕ → Bool) (xs : List ℕ)
    → ((a : ℕ) → p a ≡ true → Due heap now a)
    → ((a : ℕ) → p a ≡ false → now ≤ (heap a).next)
    → IsSorted heap xs
    → Split (Due heap now) (λ a. now ≤ (heap a).next) heap xs (span p xs).0 (span p xs).1
unfolding span
span_before heap now p [] y n s = record { joined = refl; front = tt; back = tt; sorted = tt }
span_before heap now p (x ∷ xs) y n s = elim (Bool-cases (p x)) [
  | inl due ↦
      let r = span_before heap now p xs y n s.1 in
      rw due (record {
        joined = ap (λ l. x ∷ l) r.joined;
        front = (y x due, r.front);
        back = r.back;
        sorted = r.sorted;
      })
  | inr later ↦ rw later (record {
    joined = refl;
    front = tt;
    back = (n x later, later_than heap now x xs (n x later) s.0);
    sorted = s;
  })
]

span_equal :
    (heap : ℕ → Timer) (now : ℕ) (xs : List ℕ)
    → All (λ a. now ≤ (heap a).next) xs
    → IsSorted heap xs
    → Split
        (Due heap now)
        (λ a. now < (heap a).next)
        heap
        xs
        (span (λ a. (heap a).next == now) xs).0
        (span (λ a. (heap a).next == now) xs).1
unfolding span
span_equal heap now [] h s = record { joined = refl; front = tt; back = tt; sorted = tt }
span_equal heap now (x ∷ xs) h s = elim (Bool-cases ((heap x).next == now)) [
  | inl due ↦
      let r = span_equal heap now xs h.1 s.1 in
      rw due (record {
        joined = ap (λ l. x ∷ l) r.joined;
        front = (ground (arith, due), r.front);
        back = r.back;
        sorted = r.sorted;
      })
  | inr later ↦ rw later (record {
    joined = refl;
    front = tt;
    back = (
      ground (arith, later, h.0),
      later_than heap (suc now) x xs (ground (arith, later, h.0)) s.0,
    );
    sorted = s;
  })
]

Split-twice :
    (P Q R : ℕ → Type 0) (heap : ℕ → Timer) (xs ys zs us vs : List ℕ)
    → Split P Q heap xs ys zs
    → Split P R heap zs us vs
    → Split P R heap xs (ys ++ us) vs
Split-twice P Q R heap xs ys zs us vs r q = record {
  joined = append_assoc ys us vs ∙ ap (λ l. ys ++ l) q.joined ∙ r.joined;
  front = All-append P ys us r.front q.front;
  back = q.back;
  sorted = q.sorted;
}

-- `lower_bound` and the loop behind it split the set at `now`, whatever address the probe has.
pub split_expired_lem :
    (heap : ℕ → Timer) (now probe : ℕ) (xs : List ℕ)
    → IsSorted heap xs
    → Split
        (Due heap now)
        (λ a. now < (heap a).next)
        heap
        xs
        (split_expired heap now probe xs).0
        (split_expired heap now probe xs).1
unfolding split_expired
split_expired_lem heap now probe xs s =
    let r = span_before heap now _ xs (λ a e. ground (arith, e)) (λ a e. ground (arith, e)) s in
    Split-twice (Due heap now) (λ a. now ≤ (heap a).next) (λ a. now < (heap a).next) heap xs _ _ _ _
      r (span_equal heap now _ r.back r.sorted)

-- The expired timers are pairwise distinct and none of them is left in the set.
abbrev Apart : List ℕ → List ℕ → Type 0
Apart [] rest = Unit {0}
Apart (a ∷ expired) rest = NotIn a expired × NotIn a rest × Apart expired rest

NotIn-split : (a : ℕ) (xs ys : List ℕ) → NotIn a (xs ++ ys) → NotIn a xs × NotIn a ys
NotIn-split a [] ys n = (tt, n)
NotIn-split a (x ∷ xs) ys n = let (l, r) = NotIn-split a xs ys n.1 in ((n.0, l), r)

sorted-Apart : (heap : ℕ → Timer) (xs ys : List ℕ) → IsSorted heap (xs ++ ys) → Apart xs ys
sorted-Apart heap [] ys s = tt
sorted-Apart heap (x ∷ xs) ys s =
    let (l, r) = NotIn-split x xs ys (above-NotIn heap x (xs ++ ys) s.0) in
    (l, r, sorted-Apart heap xs ys s.1)

Apart-insert :
    (heap : ℕ → Timer) (a : ℕ) (xs ys : List ℕ)
    → NotIn a xs
    → Apart xs ys
    → Apart xs (insert heap a ys)
Apart-insert heap a [] ys n h = tt
Apart-insert heap a (x ∷ xs) ys n h = (
  h.0,
  All-insert (λ y. y ≢ x) heap a ys (λ e. n.0 (sym e)) h.1,
  Apart-insert heap a xs ys n.1 h.2,
)

-- Callbacks of timers that an update does not touch.
abbrev pub callbacks : (ℕ → Timer) → List ℕ → List (Option ℕ)
callbacks heap = map (λ a. (heap a).cb)

callbacks_updated :
    (heap : ℕ → Timer) (a : ℕ) (timer : Timer) (xs : List ℕ)
    → NotIn a xs
    → callbacks (update heap a timer) xs ≡ callbacks heap xs
callbacks_updated heap a timer [] n = refl
callbacks_updated heap a timer (x ∷ xs) n =
    ap₂ (λ c cs. c ∷ cs) (ground (arith, n.0)) (callbacks_updated heap a timer xs n.1)

-- One round of the loop over the expired timers: the timer goes back with its next time, or loses its
-- callback.
abbrev rearmed : ℕ → ℕ → TimerManager → TimerManager
rearmed now a m =
    let again = update m.heap a (record (m.heap a) { next = (now + (m.heap a).ms) % 2 ^ 64 }) in
    record m { heap = again; timers = insert again a m.timers }

abbrev fired : ℕ → TimerManager → TimerManager
fired a m = record m { heap = update m.heap a (record (m.heap a) { cb = none }) }

abbrev fire_one : ℕ → ℕ → TimerManager → TimerManager
fire_one now a m = if (m.heap a).recurring then rearmed now a m else fired a m

-- What the rest of the loop needs of the state after one round.
abbrev Ready : List ℕ → (ℕ → Timer) → TimerManager → Type 0
Ready expired heap m =
    IsValid m
    × Apart expired m.timers
    × All (λ a. Armed (m.heap a)) expired
    × (callbacks m.heap expired ≡ callbacks heap expired)

fire_one-Ready :
    (now a : ℕ) (expired : List ℕ) (m : TimerManager)
    → Apart (a ∷ expired) m.timers
    → All (λ a. Armed (m.heap a)) (a ∷ expired)
    → IsValid m
    → Ready expired m.heap (fire_one now a m)
fire_one-Ready now a expired m h w v =
    if_both (Ready expired m.heap) (m.heap a).recurring (rearmed now a m) (fired a m)
      (
        record { sorted = back.0; armed = back.1 },
        Apart-insert (update m.heap a later) a expired m.timers h.0 h.2,
        All-updated Armed m.heap a later expired h.0 w.1,
        callbacks_updated m.heap a later expired h.0,
      )
      (
        record {
          sorted = update-IsSorted m.heap a over m.timers h.1 v.sorted;
          armed = All-updated Armed m.heap a over m.timers h.1 v.armed;
        },
        h.2,
        All-updated Armed m.heap a over expired h.0 w.1,
        callbacks_updated m.heap a over expired h.0,
      )
  where
    later : Timer
    later = record (m.heap a) { next = (now + (m.heap a).ms) % 2 ^ 64 }

    over : Timer
    over = record (m.heap a) { cb = none }

    back :
        IsSorted (update m.heap a later) (insert (update m.heap a later) a m.timers)
        × All (λ x. Armed (update m.heap a later x)) (insert (update m.heap a later) a m.timers)
    back = inserted a later m.heap m.timers h.1 w.0 v.sorted v.armed

fire_lem :
    (now : ℕ) (expired : List ℕ) (m : TimerManager)
    → Apart expired m.timers
    → All (λ a. Armed (m.heap a)) expired
    → IsValid m
    → IsValid (fire now expired m).0 × ((fire now expired m).1 ≡ callbacks m.heap expired)
unfolding fire
fire_lem now [] m h w v = (v, refl)
fire_lem now (a ∷ expired) m h w v =
    let (v', h', w', same) = fire_one-Ready now a expired m h w v in
    let (v'', e) = fire_lem now expired (fire_one now a m) h' w' v' in
    (v'', ap (λ l. (m.heap a).cb ∷ l) (e ∙ same))

pub All-front : (P : ℕ → Type 0) (xs ys : List ℕ) → All P (xs ++ ys) → All P xs × All P ys
All-front P [] ys h = (tt, h)
All-front P (x ∷ xs) ys h = let (l, r) = All-front P xs ys h.1 in ((h.0, l), r)

-- On a set in order, whose timers have their callbacks, `listExpiredCb` hands out the callbacks of the
-- timers that are due at `now`, all of them and no others, in their order, and leaves a set in order
-- in which every timer has its callback.
pub list_expired_cb_lem :
    (now probe : ℕ) (m : TimerManager)
    → IsValid m
    → (expired rest : List ℕ) × (expired ++ rest ≡ m.timers)
      × All (Due m.heap now) expired
      × All (λ a. now < (m.heap a).next) rest
      × ((list_expired_cb now probe m).1 ≡ callbacks m.heap expired)
      × IsValid (list_expired_cb now probe m).0
unfolding list_expired_cb
list_expired_cb_lem now probe m v =
    let s = split_expired_lem m.heap now probe m.timers v.sorted in
    let expired = (split_expired m.heap now probe m.timers).0 in
    let rest = (split_expired m.heap now probe m.timers).1 in
    let (w, w') =
      All-front (λ a. Armed (m.heap a)) expired rest
        (subst (All (λ a. Armed (m.heap a))) (sym s.joined) v.armed) in
    let (v', e) =
      fire_lem now expired (record m { timers = rest })
        (sorted-Apart m.heap expired rest (subst (IsSorted m.heap) (sym s.joined) v.sorted)) w
        (record { sorted = s.sorted; armed = w' }) in
    (expired, rest, s.joined, s.front, s.back, e, v')

-- The time until the first timer of a set.
get_next_head :
    (now a : ℕ) (xs : List ℕ) (m : TimerManager)
    → m.timers ≡ a ∷ xs
    → (get_next_timer now m).1 ≡ (m.heap a).next - now
unfolding get_next_timer
get_next_head now a xs m e = ground (arith, e)

sooner :
    (heap : ℕ → Timer) (now a : ℕ) (xs : List ℕ)
    → All (λ y. less heap a y ≡ true) xs
    → All (λ y. (heap a).next - now ≤ (heap y).next - now) xs
sooner heap now a [] h = tt
sooner heap now a (x ∷ xs) h = (ground (arith, h.0), sooner heap now a xs h.1)

-- On a set in order that is not empty `getNextTimer` returns the time until its first timer is due, 0 if
-- it is due already, and no timer of the set is due sooner.
pub get_next_timer_lem :
    (now a : ℕ) (xs : List ℕ) (m : TimerManager)
    → IsValid m
    → m.timers ≡ a ∷ xs
    → ((get_next_timer now m).1 ≡ (m.heap a).next - now)
      × All (λ y. (get_next_timer now m).1 ≤ (m.heap y).next - now) m.timers
get_next_timer_lem now a xs m v e = (
  head,
  rw (head, e) (omega arith, sooner m.heap now a xs (subst (IsSorted m.heap) e v.sorted).0),
)
  where
    head : (get_next_timer now m).1 ≡ (m.heap a).next - now
    head = get_next_head now a xs m e

-- And all ones where there is no timer.
pub get_next_timer_empty :
    (now : ℕ) (m : TimerManager) → m.timers ≡ [] → (get_next_timer now m).1 ≡ 2 ^ 64 - 1
unfolding get_next_timer
get_next_timer_empty now m e = ground (arith, e)

-- It only lowers the flag of the wake-up.
pub get_next_timer-state :
    (now : ℕ) (m : TimerManager) → (get_next_timer now m).0 ≡ record m { tickled = false }
unfolding get_next_timer
get_next_timer-state now m = go m.timers
  where
    go :
        (xs : List ℕ)
        → (elim xs as (λ _. TimerManager × ℕ) [
          | [] ↦ (record m { tickled = false }, 2 ^ 64 - 1)
          | a ∷ _ ↦ (
            record m { tickled = false },
            if leb (m.heap a).next now then 0 else (m.heap a).next - now,
          )
        ]).0
          ≡ record m { tickled = false }
    go [] = refl
    go (a ∷ xs) = refl
