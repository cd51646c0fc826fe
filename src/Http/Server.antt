-- ===== src/Http/Server.antt =====
-- sylar/http/http_server.cpp: the loop that serves one client. What `recvRequest` returns is a list, an
-- entry `none` where it returns no request; at the end of the list the server waits for the client.
pub mod Serving
mod Examples
use sylar_leo.Base.{
  ℕ, Bool, true, false, not, ◌||◌, Option, none, some, List, [], ◌∷◌, if◌then◌else◌,
}
use sylar_leo.Base.Text.{Text, codes}
use sylar_leo.Http.Message.{
  HttpRequest, HttpResponse, new_http_response, response_set_header, dump_response,
}
use sylar_leo.Http.Servlet.{Servlet, ServletDispatch, new_servlet_dispatch, add_servlet, not_found}

pub record HttpServer : Type 0 where
  pub name : Text
  pub is_keepalive : Bool
  pub dispatch : ServletDispatch

-- The constructor, with the two servlets of the program.
unfoldable pub new_http_server :
    (keepalive : Bool) → (status_servlet config_servlet : Servlet) → HttpServer
new_http_server keepalive status_servlet config_servlet = record {
  name = codes "sylar/1.0.0";
  is_keepalive = keepalive;
  dispatch =
      add_servlet (codes "/_/config") config_servlet
        (add_servlet (codes "/_/status") status_servlet new_servlet_dispatch);
}

unfoldable pub set_name : Text → HttpServer → HttpServer
set_name v t = record t {
  name = v;
  dispatch = record t.dispatch { default_servlet = some (not_found v) };
}

-- The response to a request.
unfoldable pub respond : HttpServer → HttpRequest → HttpResponse
respond t req =
    response_set_header (codes "Server") t.name
      (new_http_response req.version (req.close || not t.is_keepalive))

abbrev pub answer : HttpResponse → List HttpResponse × Bool → List HttpResponse × Bool
answer rsp (later, closed) = (rsp ∷ later, closed)

-- `handleClient`: the responses sent, and whether the session is closed.
unfoldable pub handle_client : HttpServer → List (Option HttpRequest) → List HttpResponse × Bool
unfolding respond
handle_client t [] = ([], false)
handle_client t (none ∷ requests) = ([], true)
handle_client t (some req ∷ requests) =
    let later = handle_client t requests in
    answer (respond t req) (if not t.is_keepalive || req.close then ([], true) else later)
