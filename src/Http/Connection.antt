-- ===== src/Http/Connection.antt =====
-- sylar/http/http_connection.cpp: how a request is put together from the caller's headers, what a
-- request ends with, and HttpConnectionPool.
pub mod Host
pub mod Pooling
mod Examples
use sylar_leo.Base.{
  ℕ, ◌≡◌, suc, ◌+◌, ◌-◌, ◌%◌, ◌^◌, Bool, true, false, ◌||◌, not, Option, none, some, List, [], ◌∷◌,
  ◌++◌, leb, ltb, if◌then◌else◌,
}
use sylar_leo.Base.Text.{Text, codes, is_nil}
use sylar_leo.Http.Headers.{same_key, lookup, set_value}
use sylar_leo.Http.Message.{HttpRequest, HttpResponse, new_http_request, set_header}

-- One turn of the loop over the headers, on the request and `has_host`.
add_header : Text × Text → HttpRequest × Bool → HttpRequest × Bool
unfolding set_header
add_header (key, val) (req, has_host) =
    if same_key key (codes "connection")
    then (if same_key val (codes "keep-alive")
        then (record req { close = false }, has_host)
        else (req, has_host))
    else let has_host' =
        if not has_host
        then (if same_key key (codes "host") then not (is_nil val) else has_host)
        else has_host in
      (set_header key val req, has_host')

add_headers : List (Text × Text) → HttpRequest × Bool → HttpRequest × Bool
unfolding add_header
add_headers [] r = r
add_headers (h ∷ headers) r = add_headers headers (add_header h r)

-- What both `doRequest` do once the method and the address are set: the headers, the host where the
-- caller gives none, and the body.
pub fill_request : (host : Text) → List (Text × Text) → (body : Text) → HttpRequest → HttpRequest
unfolding add_headers set_header
fill_request host headers body req =
    let (filled, has_host) = add_headers headers (req, false) in
    let with_host = if has_host then filled else set_header (codes "Host") host filled in
    record with_host { body = body }

-- `HttpConnection::DoRequest` with the parts of the uri.
pub connection_request :
    (method : ℕ) → (path query fragment host : Text) → List (Text × Text) → Text → HttpRequest
unfolding fill_request
connection_request method path query fragment host headers body =
    fill_request host headers body (record (new_http_request 17 true) {
      path = path;
      query = query;
      fragment = fragment;
      method = method;
    })

-- `HttpConnectionPool::doRequest`.
pub pool_request : (method : ℕ) → (url host vhost : Text) → List (Text × Text) → Text → HttpRequest
unfolding fill_request
pool_request method url host vhost headers body =
    fill_request (if is_nil vhost then host else vhost) headers body
      (record (new_http_request 17 false) { path = url; method = method })

-- `HttpResult::Error`.
pub data HttpError : Type 0 where
  ok invalid_url invalid_host connect_fail send_close_by_peer send_socket_error timeout
        create_socket_error pool_get_connection pool_invalid_connection :
      HttpError

-- What `writeFixSize` returns: 0, a negative number or the length.
pub data Sent : Type 0 where
  closed failed sent : Sent

-- From `sendRequest` on.
pub exchange : Sent → Option HttpResponse → HttpError × Option HttpResponse
exchange closed rsp = (send_close_by_peer, none)
exchange failed rsp = (send_socket_error, none)
exchange sent none = (timeout, none)
exchange sent (some r) = (ok, some r)

-- `HttpConnection::DoRequest` on a request: whether there is an address, a socket and a connection.
pub connection_do_request :
    (has_addr has_sock connects : Bool)
    → Sent
    → Option HttpResponse
    → HttpError × Option HttpResponse
unfolding exchange
connection_do_request has_addr has_sock connects s rsp =
    if not has_addr
    then (invalid_host, none)
    else if not has_sock
    then (create_socket_error, none)
    else if not connects
    then (connect_fail, none)
    else exchange s rsp

-- A connection of the pool.
pub record Connection : Type 0 where
  pub id : ℕ
  pub create_time : ℕ
  pub requests : ℕ

pub record Pool : Type 0 where
  pub max_alive_time : ℕ
  pub max_request : ℕ
  pub conns : List Connection
  pub total : ℕ

pub new_pool : (max_alive_time max_request : ℕ) → Pool
new_pool max_alive_time max_request = record {
  max_alive_time = max_alive_time;
  max_request = max_request;
  conns = [];
  total = 0;
}

-- The loop of `getConnection`: how many connections it drops, the one it takes, and those it leaves.
take_idle :
    (connected : Connection → Bool)
    → (now max_alive_time : ℕ) → List Connection
    → ℕ × (Option Connection × List Connection)
take_idle connected now max_alive_time [] = (0, (none, []))
take_idle connected now max_alive_time (c ∷ conns) =
    let (dropped, rest) = take_idle connected now max_alive_time conns in
    if not (connected c) || ltb now ((c.create_time + max_alive_time) % 2 ^ 64)
    then (suc dropped, rest)
    else (0, (some c, conns))

-- `fresh` is the connection that is made, `none` where there is no address, socket or connection.
pub get_connection :
    (connected : Connection → Bool)
    → (now : ℕ) → (fresh : Option ℕ) → Pool
    → Pool × Option Connection
unfolding take_idle
get_connection connected now fresh p =
    let (dropped, (taken, left)) = take_idle connected now p.max_alive_time p.conns in
    elim taken [
      | some c ↦ (record p { conns = left; total = p.total - dropped }, some c)
      | none ↦ elim fresh [
        | none ↦ (record p { conns = left; total = p.total - dropped }, none)
        | some id ↦ (
          record p { conns = left; total = p.total - dropped + 1 },
          some (record { id = id; create_time = 0; requests = 0 }),
        )
      ]
    ]

-- `ReleasePtr`.
pub release : (connected : Connection → Bool) → (now : ℕ) → Connection → Pool → Pool
release connected now c p =
    let used = record c { requests = c.requests + 1 } in
    if not (connected c)
      || (leb now ((c.create_time + p.max_alive_time) % 2 ^ 64)
          || leb p.max_request (c.requests + 1))
    then record p { total = p.total - 1 }
    else record p { conns = p.conns ++ used ∷ [] }

-- What is done to a pool, with the connections that are out.
pub data Step : Pool × List Connection → Pool × List Connection → Type 0 where
  gets :
      (connected : Connection → Bool) (now : ℕ) (fresh : Option ℕ) (p p' : Pool) (c : Connection)
      (out : List Connection)
      → get_connection connected now fresh p ≡ (p', some c)
      → Step (p, out) (p', c ∷ out)
  gets_none :
      (connected : Connection → Bool) (now : ℕ) (fresh : Option ℕ) (p p' : Pool)
      (out : List Connection)
      → get_connection connected now fresh p ≡ (p', none)
      → Step (p, out) (p', out)
  releases :
      (connected : Connection → Bool) (now : ℕ) (p : Pool) (before after : List Connection)
      (c : Connection)
      → Step (p, before ++ c ∷ after) (release connected now c p, before ++ after)

pub data Reaches : Pool × List Connection → Pool × List Connection → Type 0 where
  start : (s : Pool × List Connection) → Reaches s s
  then_step : (s t u : Pool × List Connection) → Reaches s t → Step t u → Reaches s u
