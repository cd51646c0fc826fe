-- ===== src/Fiber/Examples.antt =====
-- A fiber for callback 5 that is resumed and returns.
use sylar_leo.Base.{refl, true, false}
use sylar_leo.Fiber.{
  Fiber, init, new_fiber, swap_in, finish, is_over, call, main_func, reset, ended,
}
use sylar_leo.Fiber.Life.{
  IsAlive, Reach, here, next, resumed, finished, cleared, emptied, Reach-IsAlive,
}

-- The fiber after `swapIn`, after its callback, and after `reset`.
abbrev running : Fiber
running = call (new_fiber 5 false)

abbrev returned : Fiber
returned = finish true running

-- The fiber that `run` has reset to no callback.
abbrev empty : Fiber
empty = record returned { state = init; entry = main_func }

-- It is resumed, returns, and is emptied.
abbrev life : Reach (new_fiber 5 false) empty
unfolding new_fiber swap_in finish call is_over ended reset
life = next (next (next here (resumed refl refl)) (finished true refl refl)) (cleared refl refl)

Reach-IsAlive_example : IsAlive (emptied life) empty
Reach-IsAlive_example = Reach-IsAlive 5 false life
