-- ===== src/TcpServer.antt =====
-- sylar/tcp_server.cpp: the listening sockets of a TcpServer. A socket is kept as its value and the
-- descriptors of all sockets in one System; what OpenSSL adds to an SSLSocket plays no part here.
pub mod Binding
pub mod Accepting
mod Examples
use sylar_leo.Base.{
  ℕ, ◌+◌, ◌-◌, Bool, true, false, Option, none, some, List, [], ◌∷◌, ◌++◌, map, if◌then◌else◌,
}
use sylar_leo.Base.Text.{Text, codes}
use sylar_leo.FdManager.{FdCtx}
use sylar_leo.Socket.{
  Address, Socket, System, State, Answers, create_tcp, bind, listen, close, accept,
}

pub record TcpServer : Type 0 where
  pub socks : List Socket
  pub recv_timeout : ℕ
  pub name : Text
  pub is_stop : Bool
  pub ssl : Bool

-- The constructor, with the value of the variable `tcp_server.read_timeout`.
unfoldable pub new_tcp_server : (read_timeout : ℕ) → TcpServer
new_tcp_server read_timeout = record {
  socks = [];
  recv_timeout = read_timeout;
  name = codes "sylar/1.0.0";
  is_stop = true;
  ssl = false;
}

-- An address to bind, with what the system answers to `bind` and to `listen`.
pub record Attempt : Type 0 where
  pub address : Address
  pub answers : Answers
  pub listens : Bool

-- What the loop of `bind` has so far: the sockets, the addresses that failed, and the system.
pub record Progress : Type 0 where
  pub bound : List Socket
  pub fails : List Address
  pub system : System

-- The destructor of a socket.
unfoldable pub destroy : State → System
destroy st = (close st).1.1

-- The rest of a turn of the loop, behind `bind` and `listen`. The socket is destroyed at the end of the
-- turn where it is not stored.
abbrev pub store :
    Address → Progress → (bound_ok : Bool) → State → (listened : Bool × State) → Progress
store addr p true st (true, (s, w)) = record p { bound = p.bound ++ s ∷ []; system = w }
store addr p true st (false, st') = record p { fails = p.fails ++ addr ∷ []; system = destroy st' }
store addr p false st listened = record p { fails = p.fails ++ addr ∷ []; system = destroy st }

unfoldable pub bind_one : Attempt → Progress → Progress
unfolding destroy
bind_one a p =
    let (bound_ok, st) = bind a.answers a.address (create_tcp a.address.family, p.system) in
    store a.address p bound_ok st (listen a.listens st)

abbrev pub bind_all : List Attempt → Progress → Progress
bind_all [] p = p
bind_all (a ∷ attempts) p = bind_all attempts (bind_one a p)

-- `m_socks.clear()`: the server holds the only pointers before it is started.
abbrev pub destroy_all : List Socket → System → System
destroy_all [] w = w
destroy_all (s ∷ socks) w = destroy_all socks (destroy (s, w))

abbrev pub no_fails : List Address → Bool
no_fails [] = true
no_fails (a ∷ more) = false

-- The end of `bind`.
unfoldable pub bind_end : TcpServer → Progress → Bool × (TcpServer × (List Address × System))
bind_end t p =
    if no_fails p.fails
    then (true, (record t { socks = p.bound }, (p.fails, p.system)))
    else (false, (record t { socks = [] }, (p.fails, destroy_all p.bound p.system)))

-- `bind` of several addresses: what it returns, the server, `fails`, and the system.
unfoldable pub bind_addresses :
    List Attempt
    → (fails : List Address) → (ssl : Bool) → TcpServer × System
    → Bool × (TcpServer × (List Address × System))
unfolding bind_end
bind_addresses attempts fails ssl (t, w) =
    bind_end (record t { ssl = ssl })
      (bind_all attempts (record { bound = t.socks; fails = fails; system = w }))

unfoldable pub bind_address :
    Attempt → (ssl : Bool) → TcpServer × System → Bool × (TcpServer × (List Address × System))
unfolding bind_addresses
bind_address a ssl t = bind_addresses (a ∷ []) [] ssl t

-- `start`: the sockets for which `startAccept` is scheduled.
unfoldable pub start : TcpServer → TcpServer × List Socket
start t = if t.is_stop then (record t { is_stop = false }, t.socks) else (t, [])

-- `stop`, before and after the callback that it schedules has run. `cancelAll` does not change a socket.
unfoldable pub stop : TcpServer → TcpServer
stop t = record t { is_stop = true }

unfoldable pub close_socks : TcpServer × System → TcpServer × System
close_socks (t, w) = (record t { socks = [] }, destroy_all t.socks w)

-- A turn of the loop of `startAccept`: whether the server is stopped when it begins, what the system
-- answers, and what FdManager has for the descriptor.
pub record AcceptTurn : Type 0 where
  pub stopped : Bool
  pub answers : Answers
  pub ctx : Option FdCtx

abbrev pub welcome : Option Socket → List Socket → List Socket
welcome none clients = clients
welcome (some client) clients = client ∷ clients

-- `startAccept`: the clients for which `handleClient` is scheduled, each with `m_recvTimeout` set, and
-- the system.
unfoldable pub start_accept : List AcceptTurn → Socket → System → List Socket × System
start_accept [] sock w = ([], w)
start_accept (turn ∷ turns) sock w =
    let (client, w') = accept turn.answers turn.ctx (sock, w) in
    let (clients, w'') = start_accept turns sock w' in
    if turn.stopped then ([], w) else (welcome client clients, w'')

-- `loadCertificates`: for each socket, whether it is an SSLSocket that refuses the files.
abbrev pub load_all_certificates : List Bool → Bool
load_all_certificates [] = true
load_all_certificates (refuses ∷ socks) = if refuses then false else load_all_certificates socks
