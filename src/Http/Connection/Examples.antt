-- ===== src/Http/Connection/Examples.antt =====
-- A request with two headers, and a pool whose only connection is taken and released.
use sylar_leo.Base.{◌≡◌, refl, Bool, true, some, List, [], ◌∷◌}
use sylar_leo.Base.Text.{Text, codes}
use sylar_leo.Http.Connection.{
  Connection, Pool, new_pool, take_idle, get_connection, release, Step, gets, releases, Reaches,
  start, then_step,
}
use sylar_leo.Http.Connection.Pooling.{IsValid, Reaches-IsValid}

abbrev headers : List (Text × Text)
headers = (codes "Connection", codes "keep-alive") ∷ (codes "Accept", codes "*/*") ∷ []

abbrev first : Connection
first = record { id = 1; create_time = 0; requests = 0 }

abbrev alive : Connection → Bool
alive c = true

abbrev taken : Pool
taken = record { max_alive_time = 100; max_request = 5; conns = []; total = 1 }

taken-Step : Step (new_pool 100 5, []) (taken, first ∷ [])
unfolding new_pool get_connection take_idle
taken-Step = gets alive 1000 (some 1) (new_pool 100 5) taken first [] refl

taken_and_released : Reaches (new_pool 100 5, []) (release alive 2000 first taken, [])
taken_and_released =
    then_step (new_pool 100 5, []) (taken, first ∷ []) (release alive 2000 first taken, [])
      (then_step (new_pool 100 5, []) (new_pool 100 5, []) (taken, first ∷ [])
        (start (new_pool 100 5, [])) taken-Step)
      (releases alive 2000 taken [] [] first)

release_test :
    release alive 2000 first taken ≡ record taken { conns = record first { requests = 1 } ∷ [] }
unfolding release
release_test = refl

Reaches-IsValid_example : IsValid 5 (release alive 2000 first taken, [])
Reaches-IsValid_example =
    Reaches-IsValid 100 5 (new_pool 100 5, []) (release alive 2000 first taken, [])
      taken_and_released refl
