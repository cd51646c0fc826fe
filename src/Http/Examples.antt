-- ===== src/Http/Examples.antt =====
-- Two headers that differ only in the case of their letters, and a query of two parameters.
use sylar_leo.Base.{◌≡◌, arith, List, [], ◌∷◌, All}
use sylar_leo.Base.Text.{Text, codes}
use sylar_leo.Http.Headers.Order.{IsSorted}
use sylar_leo.Http.Headers.Replay.{Call, set_header, del_header, run, replay, view, run-replay}
use sylar_leo.Http.Params.{
  parse_params, print_params, insert_all, Printable, parse_params-print_params,
}

abbrev calls : List Call
calls =
    set_header (codes "Host") (codes "a")
    ∷ set_header (codes "HOST") (codes "b")
    ∷ del_header (codes "Accept")
    ∷ []

run-replay_example : IsSorted (run calls []) × (view (run calls []) ≡ replay calls (view []))
run-replay_example = run-replay calls [] tt

abbrev query : List (Text × Text)
query = (codes "k", codes "a&b") ∷ (codes "n", codes "1") ∷ []

query-Printable : All Printable query
query-Printable = (
  (((λ e. ground (arith, e)), tt), (omega arith, (omega arith, (omega arith, tt)))),
  ((((λ e. ground (arith, e)), tt), (omega arith, tt)), tt),
)

parse_params-print_params_example :
    parse_params b'&' (λ s. s) (print_params query) [] ≡ insert_all query []
parse_params-print_params_example = parse_params-print_params query [] query-Printable
