-- ===== src/Http/Server/Examples.antt =====
-- A server that keeps connections, and a client that sends two requests of which the second closes.
use sylar_leo.Base.{◌≡◌, true, false, Option, none, some, List, [], ◌∷◌, map}
use sylar_leo.Base.Text.{codes}
use sylar_leo.Http.Message.{HttpRequest, new_http_request}
use sylar_leo.Http.Servlet.{not_found}
use sylar_leo.Http.Server.{HttpServer, new_http_server, respond, handle_client}
use sylar_leo.Http.Server.Serving.{Served, handle_client_lem}

abbrev server : HttpServer
server = new_http_server true (not_found (codes "status")) (not_found (codes "config"))

abbrev requests : List (Option HttpRequest)
requests = some (new_http_request 17 false) ∷ some (new_http_request 17 true) ∷ none ∷ []

handle_client_lem_example :
    (served : List HttpRequest) × (Served server requests served (handle_client server requests).1
      × ((handle_client server requests).0 ≡ map (respond server) served))
handle_client_lem_example = handle_client_lem server requests
