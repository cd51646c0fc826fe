-- ===== src/Http/Server/Serving.antt =====
-- What a client of the server is sent.
use sylar_leo.Base.{
  ◌≡◌, refl, ap, ◌∙◌, Bool, true, false, not, ◌||◌, Option, none, some, List, [], ◌∷◌, map,
  Bool-cases, inl, inr,
}
use sylar_leo.Http.Message.{HttpRequest, new_http_response, response_set_header}
use sylar_leo.Http.Server.{HttpServer, respond, handle_client}

-- What is served of the requests of a connection: all of them up to the first after which it is not kept.
pub data Served (t : HttpServer)
    : List (Option HttpRequest) → List HttpRequest → Bool → Type 0 where
  waiting : Served t [] [] false
  hung_up : {requests : List (Option HttpRequest)} → Served t (none ∷ requests) [] true
  last :
      {req : HttpRequest} {requests : List (Option HttpRequest)}
      → (respond t req).close ≡ true
      → Served t (some req ∷ requests) (req ∷ []) true
  kept :
      {req : HttpRequest} {requests : List (Option HttpRequest)} {later : List HttpRequest}
      {closed : Bool}
      → (respond t req).close ≡ false
      → Served t requests later closed
      → Served t (some req ∷ requests) (req ∷ later) closed

close-respond :
    (t : HttpServer) (req : HttpRequest) → (respond t req).close ≡ (req.close || not t.is_keepalive)
unfolding respond response_set_header new_http_response
close-respond t req = refl

or-swap : (a b : Bool) → (a || b) ≡ (b || a)
or-swap true true = refl
or-swap true false = refl
or-swap false true = refl
or-swap false false = refl

-- The server sends one response to each request, in their order, up to the first response that says that
-- the connection is closed or the first request that is not received, and then closes the session.
pub handle_client_lem :
    (t : HttpServer) (requests : List (Option HttpRequest))
    → (served : List HttpRequest) × (Served t requests served (handle_client t requests).1
        × ((handle_client t requests).0 ≡ map (respond t) served))
unfolding handle_client
handle_client_lem t [] = ([], (waiting, refl))
handle_client_lem t (none ∷ requests) = ([], (hung_up, refl))
handle_client_lem t (some req ∷ requests) =
    let said : (respond t req).close ≡ not t.is_keepalive || req.close =
      close-respond t req ∙ or-swap req.close (not t.is_keepalive) in
    let (served, (how, same)) = handle_client_lem t requests in
    elim (Bool-cases (not t.is_keepalive || req.close)) [
      | inl closes ↦ (req ∷ [], (rw closes (last (said ∙ closes)), rw closes refl))
      | inr stays ↦ (
        req ∷ served,
        (rw stays (kept (said ∙ stays) how), rw stays (ap (λ l. respond t req ∷ l) same)),
      )
    ]
