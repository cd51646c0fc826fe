-- ===== src/Timer/Examples.antt =====
-- Two timers: a single one that is due at 110 and a recurring one that is due at 150.
use sylar_leo.Base.{
  ℕ, ◌<◌, ◌≡◌, refl, true, false, some, none, List, [], ◌∷◌, ◌++◌, if◌then◌else◌, ◌==◌, All,
}
use sylar_leo.Timer.{Timer, TimerManager, list_expired_cb, fire, span}
use sylar_leo.Timer.Manager.{IsValid}
use sylar_leo.Timer.Expiry.{Due, callbacks, list_expired_cb_lem}

abbrev heap : ℕ → Timer
heap a =
    if a == 1
    then record { recurring = false; ms = 10; next = 110; cb = some 7 }
    else if a == 2
    then record { recurring = true; ms = 50; next = 150; cb = some 8 }
    else record { recurring = false; ms = 0; next = 0; cb = none }

abbrev two : TimerManager
two = record { heap = heap; timers = 1 ∷ 2 ∷ []; tickled = false; previous_time = 100 }

two-IsValid : IsValid two
two-IsValid = record { sorted = ((refl, tt), (tt, tt)); armed = ((λ e. cc), ((λ e. cc), tt)) }

-- At 120 the callback of the first is handed out.
list_expired_test : (list_expired_cb 120 0 two).1 ≡ some 7 ∷ []
unfolding list_expired_cb fire span
list_expired_test = refl

list_expired_cb_lem_example :
    (expired rest : List ℕ) × (expired ++ rest ≡ two.timers)
    × All (Due heap 120) expired
    × All (λ a. 120 < (heap a).next) rest
    × ((list_expired_cb 120 0 two).1 ≡ callbacks heap expired)
    × IsValid (list_expired_cb 120 0 two).0
list_expired_cb_lem_example = list_expired_cb_lem 120 0 two two-IsValid
