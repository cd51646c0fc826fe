-- ===== src/Socket/Examples.antt =====
-- A socket that binds to a Unix address nobody answers on, listens, and then connects in vain; and a
-- connection that takes at most two bytes at a time.
use sylar_leo.Base.{
  zero, suc, ◌^◌, ◌<◌, ℕ, ◌+◌, ◌≡◌, refl, arith, true, false, none, some, List, [], ◌∷◌, Option,
  min, flatten, take, length, ◌≤◌,
}
use sylar_leo.Base.Text.{Text, codes}
use sylar_leo.FdManager.{FdCtx, no_timeout, send}
use sylar_leo.Hook.{do_io, retry}
use sylar_leo.Hook.Calls.Flags.{context_entry}
use sylar_leo.Socket.{
  Address, unix_address, Socket, System, Answers, af_unix, af_inet, create_tcp, new_socket, close,
}
use sylar_leo.ByteArray.{ByteArray, little, big}
use sylar_leo.ByteArray.Validity.{IsValid}
use sylar_leo.Socket.Holding.{IsHeld}
use sylar_leo.Socket.Calls.{
  Call, calls_bind, calls_connect, calls_listen, calls_reconnect, run, run-IsHeld,
}
use sylar_leo.Socket.Transfer.{
  Message, set_socket_timeout, get_socket_timeout, set_socket_timeout_lem,
}
use sylar_leo.Socket.Secure.{
  SslReply, moved, Takes, part, none_taken, refused, IsPrefix, ssl_send, ssl_send_lem,
}
use sylar_leo.Socket.Streaming.{read_byte_array, read_byte_array_lem}
use sylar_leo.ByteArray.Filling.{Received}
use sylar_leo.Base.{length-take, ap}

abbrev silent : Answers
silent = record {
  fresh = some 7;
  probe_fresh = some 8;
  probe_ok = false;
  ok = true;
  sockname = some (codes "/tmp/s");
  peername = none;
}

abbrev failing : Answers
failing = record silent { ok = false }

abbrev path : Address
path = record { kind = unix_address; family = af_unix; bytes = codes "/tmp/s" }

abbrev calls : List Call
calls =
    calls_bind silent path
    ∷ calls_listen true
    ∷ calls_connect failing path
    ∷ calls_reconnect silent
    ∷ []

abbrev system : System
system = record { fds = 0 ∷ 1 ∷ []; options = [] }

run-IsHeld_example :
    IsHeld (0 ∷ 1 ∷ []) (run calls (create_tcp af_unix, system))
    × ((close (run calls (create_tcp af_unix, system))).1.1.fds ≡ 0 ∷ 1 ∷ [])
run-IsHeld_example = run-IsHeld af_unix calls system

abbrev known : FdCtx
known = record {
  is_init = true;
  is_socket = true;
  sys_nonblock = true;
  user_nonblock = false;
  is_closed = false;
  fd = 0;
  recv_timeout = no_timeout;
  send_timeout = no_timeout;
}

abbrev client : Socket
client = record (new_socket af_inet 1 0) { sock = some 0; is_connected = true }

set_socket_timeout_lem_example :
    (get_socket_timeout send client (set_socket_timeout true send 1500 client (some known ∷ []))
      ≡ some 1500)
    × (do_io true 0 send (set_socket_timeout true send 1500 client (some known ∷ [])) []
        ≡ retry 1500 [])
    × (set_socket_timeout false send 1500 client (some known ∷ []) ≡ some known ∷ [])
set_socket_timeout_lem_example =
    set_socket_timeout_lem send 1500 0 client (some known ∷ []) known [] (omega arith) refl
      (context_entry 0 (some known ∷ [])) refl refl refl

two_at_most : ℕ → Text → (num : ℕ) → ℕ × SslReply
two_at_most n buffer zero = (n, refused)
two_at_most n buffer (suc zero) = (n + 1, moved 1)
two_at_most n buffer (suc (suc num)) = (n + 2, moved 2)

two_at_most-Takes :
    (n : ℕ) (buffer : Text) (num : ℕ) → num < 2 ^ 31 → Takes num (two_at_most n buffer num).1
unfolding two_at_most
two_at_most-Takes n buffer zero h = none_taken
two_at_most-Takes n buffer (suc zero) h = part (omega arith) (omega arith)
two_at_most-Takes n buffer (suc (suc num)) h = part (omega arith) (omega arith)

ssl_send_lem_example :
    IsPrefix 0
      (codes "ab" ∷ codes "cde" ∷ [])
      (ssl_send two_at_most 0 (codes "ab" ∷ codes "cde" ∷ []))
ssl_send_lem_example =
    ssl_send_lem two_at_most two_at_most-Takes 0 (codes "ab" ∷ codes "cde" ∷ []) (omega arith)

-- Three bytes in two blocks, of which the first is read.
abbrev block_pair : ByteArray
block_pair = record {
  base_size = 2;
  position = 1;
  capacity = 4;
  size = 3;
  endian = big;
  chain = (7 ∷ 8 ∷ []) ∷ (9 ∷ 0 ∷ []) ∷ [];
  cur = some 0;
  host = little;
  junk = 0;
}

block_pair-IsValid : IsValid block_pair
block_pair-IsValid = record {
  base_pos = omega arith;
  sized = (refl, (refl, tt));
  room = refl;
  rooted = omega arith;
  position_le = omega arith;
  size_le = omega arith;
  at_cur = refl;
}

-- A `sendmsg` that takes one byte at most.
abbrev one_at_most : Option ℕ → Message → Option ℕ
one_at_most fd msg = some (min 1 (length (flatten msg.iov)))

-- A `recvmsg` with three bytes to give, that gives what there is room for.
abbrev three_bytes : Option ℕ → Message → Option Text
three_bytes fd msg = some (take (length (flatten msg.iov)) (codes "xyz"))

three_bytes_le :
    (msg : Message) (t : Text)
    → three_bytes (some 0) msg ≡ some t
    → length t ≤ length (flatten msg.iov)
three_bytes_le msg t h =
    let e : take (length (flatten msg.iov)) (codes "xyz") ≡ t = ground (arith, h) in
    omega (arith, ap length e, length-take (length (flatten msg.iov)) (codes "xyz"))

read_byte_array_lem_example :
    (iov : List Text) × (length (flatten iov) ≤ 5)
    × Received block_pair
        (three_bytes (some 0) (record { iov = iov; name = none }))
        (read_byte_array three_bytes 5 (record { socket = some client; owner = true }) block_pair)
read_byte_array_lem_example =
    read_byte_array_lem three_bytes 5 true client block_pair three_bytes_le block_pair-IsValid
      (omega arith) refl
