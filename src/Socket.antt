-- ===== src/Socket.antt =====
-- sylar/socket.cpp: a Socket with the descriptor it holds. The system is kept as the list of open
-- descriptors and the options set on them; what it answers to a call is an argument.
pub mod Holding
pub mod Calls
pub mod Transfer
pub mod Secure
pub mod Streaming
mod Examples
use sylar_leo.Base.{
  ℕ, ◌+◌, ◌-◌, ◌*◌, ◌/◌, ◌%◌, ◌^◌, Bool, true, false, not, ◌&&◌, Option, none, some, List, [], ◌∷◌,
  ◌++◌, ltb, ◌==◌, if◌then◌else◌,
}
use sylar_leo.Base.Text.{Text}
use sylar_leo.FdManager.{FdCtx}

-- The classes of Address.
pub data AddressKind : Type 0 where
  ipv4_address ipv6_address unix_address unknown_address : AddressKind

pub record Address : Type 0 where
  pub kind : AddressKind
  pub family : ℕ
  pub bytes : Text

pub record Socket : Type 0 where
  pub sock : Option ℕ
  pub family : ℕ
  pub type : ℕ
  pub protocol : ℕ
  pub is_connected : Bool
  pub local_address : Option Address
  pub remote_address : Option Address

-- SO_REUSEADDR and TCP_NODELAY.
pub data SockOption : Type 0 where
  reuse_addr tcp_no_delay : SockOption

pub record System : Type 0 where
  pub fds : List ℕ
  pub options : List (ℕ × SockOption)

abbrev pub State : Type 0
State = Socket × System

-- What the system answers during one call: to `socket`, to the `socket` and the `connect` of the probe
-- of a Unix address, to the call itself (whether it returns 0), to `getsockname` and to `getpeername`.
pub record Answers : Type 0 where
  pub fresh : Option ℕ
  pub probe_fresh : Option ℕ
  pub probe_ok : Bool
  pub ok : Bool
  pub sockname : Option Text
  pub peername : Option Text

abbrev pub af_unix : ℕ
af_unix = 1

abbrev pub af_inet : ℕ
af_inet = 2

abbrev pub af_inet6 : ℕ
af_inet6 = 10

abbrev pub sock_stream : ℕ
sock_stream = 1

abbrev pub sock_dgram : ℕ
sock_dgram = 2

unfoldable pub new_socket : (family type protocol : ℕ) → Socket
new_socket family type protocol = record {
  sock = none;
  family = family;
  type = type;
  protocol = protocol;
  is_connected = false;
  local_address = none;
  remote_address = none;
}

abbrev pub valid : Option ℕ → Bool
valid none = false
valid (some fd) = true

unfoldable pub is_valid : Socket → Bool
is_valid s = valid s.sock

-- `initSock` on the descriptor `fd`.
unfoldable pub init_sock : (fd type : ℕ) → System → System
init_sock fd type w =
    let reuse = record w { options = (fd, reuse_addr) ∷ w.options } in
    if type == sock_stream
    then record reuse { options = (fd, tcp_no_delay) ∷ reuse.options }
    else reuse

abbrev pub open_fd : ℕ → System → System
open_fd fd w = record w { fds = fd ∷ w.fds }

abbrev pub without_fd : ℕ → List ℕ → List ℕ
without_fd fd [] = []
without_fd fd (x ∷ xs) = if x == fd then xs else x ∷ without_fd fd xs

-- `::close`.
abbrev pub close_fd : ℕ → System → System
close_fd fd w = record w { fds = without_fd fd w.fds }

unfoldable pub new_sock : (fresh : Option ℕ) → State → State
unfolding init_sock
new_sock none (s, w) = (record s { sock = none }, w)
new_sock (some fd) (s, w) = (record s { sock = some fd }, init_sock fd s.type (open_fd fd w))

abbrev pub close_from : Option ℕ → State → Bool × State
close_from none (s, w) =
    if s.is_connected then (false, (record s { is_connected = false }, w)) else (true, (s, w))
close_from (some fd) (s, w) =
    (false, (record s { is_connected = false; sock = none }, close_fd fd w))

unfoldable pub close : State → Bool × State
close (s, w) = close_from s.sock (s, w)

-- An address of the class that the switch makes for a family, once the system has filled it.
pub address_of : (family : ℕ) → Text → Address
address_of family b =
    if family == af_inet
    then record { kind = ipv4_address; family = family; bytes = b }
    else if family == af_inet6
    then record { kind = ipv6_address; family = family; bytes = b }
    else if family == af_unix
    then record { kind = unix_address; family = family; bytes = b }
    else record { kind = unknown_address; family = family; bytes = b }

-- What both address getters do: the stored address, else the answer, which is then stored.
pub known_address :
    (family : ℕ) → Option Address → (answer : Option Text) → Address × Option Address
unfolding address_of
known_address family (some a) answer = (a, some a)
known_address family none none =
    (record { kind = unknown_address; family = family; bytes = [] }, none)
known_address family none (some b) = (address_of family b, some (address_of family b))

unfoldable pub get_remote_address : (peername : Option Text) → Socket → Address × Socket
unfolding known_address
get_remote_address peername s =
    let (a, stored) = known_address s.family s.remote_address peername in
    (a, record s { remote_address = stored })

unfoldable pub get_local_address : (sockname : Option Text) → Socket → Address × Socket
unfolding known_address
get_local_address sockname s =
    let (a, stored) = known_address s.family s.local_address sockname in
    (a, record s { local_address = stored })

-- What `bind` and `connect` begin with.
unfoldable pub make_valid : (fresh : Option ℕ) → State → State
unfolding is_valid new_sock
make_valid fresh (s, w) = if is_valid s then (s, w) else new_sock fresh (s, w)

-- `connect` on a descriptor that is valid, for an address of the right family. The time-out only picks
-- the system call that answers.
unfoldable pub connect_sock : Answers → State → Bool × State
unfolding close get_remote_address get_local_address
connect_sock ans (s, w) =
    let s' = (get_remote_address ans.peername (record s { is_connected = true })).1 in
    if ans.ok then (true, ((get_local_address ans.sockname s').1, w)) else (false, (close (s, w)).1)

unfoldable pub connect : Answers → Address → State → Bool × State
unfolding make_valid is_valid connect_sock
connect ans addr (s, w) =
    let st = make_valid ans.fresh (record s { remote_address = some addr }, w) in
    if not (is_valid st.0)
    then (false, st)
    else if addr.family == st.0.family
    then connect_sock ans st
    else (false, st)

abbrev pub reconnect_to : Option Address → Answers → State → Bool × State
reconnect_to none ans (s, w) = (false, (s, w))
reconnect_to (some addr) ans (s, w) = connect ans addr (record s { local_address = none }, w)

unfoldable pub reconnect : Answers → State → Bool × State
reconnect ans (s, w) = reconnect_to s.remote_address ans (s, w)

-- The probe of `bind`: a socket of its own connects to the address, and its destructor closes it.
unfoldable pub probe : Answers → Address → System → Bool × System
unfolding connect close new_socket
probe ans addr w =
    let (connected, st) =
      connect (record ans { fresh = ans.probe_fresh; ok = ans.probe_ok }) addr
        (new_socket af_unix sock_stream 0, w) in
    (connected, (close st).1.1)

-- `bind` from the system call on.
unfoldable pub bind_sock : Answers → State → Bool × State
unfolding get_local_address
bind_sock ans (s, w) =
    if ans.ok then (true, ((get_local_address ans.sockname s).1, w)) else (false, (s, w))

unfoldable pub bind_kind : AddressKind → Answers → Address → State → Bool × State
unfolding probe bind_sock
bind_kind unix_address ans addr (s, w) =
    let (answered, w') = probe ans addr w in
    if answered then (false, (s, w')) else bind_sock ans (s, w')
bind_kind ipv4_address ans addr st = bind_sock ans st
bind_kind ipv6_address ans addr st = bind_sock ans st
bind_kind unknown_address ans addr st = bind_sock ans st

unfoldable pub bind : Answers → Address → State → Bool × State
unfolding make_valid is_valid bind_kind
bind ans addr (s, w) =
    let st = make_valid ans.fresh (s, w) in
    if not (is_valid st.0)
    then (false, st)
    else if addr.family == st.0.family
    then bind_kind addr.kind ans addr st
    else (false, st)

unfoldable pub listen : (ok : Bool) → State → Bool × State
unfolding is_valid
listen ok (s, w) = (is_valid s && ok, (s, w))

-- A context that is a socket and not closed.
abbrev pub usable : Option FdCtx → Bool
usable none = false
usable (some ctx) = ctx.is_socket && not ctx.is_closed

-- `init`, with what `FdManager::get` finds for the descriptor.
unfoldable pub init : Answers → (fd : ℕ) → Option FdCtx → State → Bool × State
unfolding init_sock get_local_address get_remote_address
init ans fd ctx (s, w) =
    let s' =
      (get_local_address ans.sockname (record s { sock = some fd; is_connected = true })).1 in
    let s'' = (get_remote_address ans.peername s').1 in
    if usable ctx then (true, (s'', init_sock fd s.type w)) else (false, (s, w))

abbrev pub accept_with : Option ℕ → Answers → Option FdCtx → State → Option Socket × System
accept_with none ans ctx (s, w) = (none, w)
accept_with (some fd) ans ctx (s, w) =
    let (ready, (s', w')) = init ans fd ctx (new_socket s.family s.type s.protocol, open_fd fd w) in
    (if ready then some s' else none, w')

-- `accept`, where the system answers with a descriptor or -1: the socket returned, if any.
unfoldable pub accept : Answers → Option FdCtx → State → Option Socket × System
unfolding init new_socket
accept ans ctx st = accept_with ans.fresh ans ctx st

unfoldable pub create_tcp : (family : ℕ) → Socket
unfolding new_socket
create_tcp family = new_socket family sock_stream 0

-- `CreateUDP`: the flag is set whether or not the system gave a descriptor.
unfoldable pub create_udp : (fresh : Option ℕ) → (family : ℕ) → System → State
unfolding new_socket new_sock
create_udp fresh family w =
    let (s, w') = new_sock fresh (new_socket family sock_dgram 0, w) in
    (record s { is_connected = true }, w')

unfoldable pub create_unix_udp : Socket
unfolding new_socket
create_unix_udp = new_socket af_unix sock_dgram 0
