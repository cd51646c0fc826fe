-- ===== src/Http/Servlet/Examples.antt =====
-- A dispatcher with one exact servlet and two patterns; a pattern ends in `*` and stands for a prefix.
use sylar_leo.Base.{◌≡◌, List, [], ◌∷◌}
use sylar_leo.Base.Text.{codes}
use sylar_leo.Http.Servlet.{not_found, new_servlet_dispatch}
use sylar_leo.Http.Servlet.Table.{
  Call, add, add_glob, del_glob, run, replay, view, IsValid, empty, run-replay-view,
}

abbrev calls : List Call
calls =
    add (codes "/a") (not_found (codes "exact"))
    ∷ add_glob (codes "/b/") (not_found (codes "first"))
    ∷ add_glob (codes "/") (not_found (codes "second"))
    ∷ add_glob (codes "/b/") (not_found (codes "again"))
    ∷ del_glob (codes "/c")
    ∷ []

new_servlet_dispatch-IsValid : IsValid new_servlet_dispatch
unfolding new_servlet_dispatch
new_servlet_dispatch-IsValid = record { datas_distinct = empty; globs_distinct = empty }

run-replay-view_example :
    IsValid (run calls new_servlet_dispatch)
    × (view (run calls new_servlet_dispatch) ≡ replay calls (view new_servlet_dispatch))
run-replay-view_example = run-replay-view calls new_servlet_dispatch new_servlet_dispatch-IsValid
