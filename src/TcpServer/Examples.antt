-- ===== src/TcpServer/Examples.antt =====
-- A server with no sockets that binds two addresses, of which the second cannot be bound.
use sylar_leo.Base.{◌≡◌, true, false, some, none, List, [], ◌∷◌, ◌+◌}
use sylar_leo.Base.Text.{codes}
use sylar_leo.FdManager.{FdCtx, no_timeout}
use sylar_leo.Socket.{create_tcp, Address, ipv4_address, System, Answers, af_inet}
use sylar_leo.TcpServer.{Attempt, AcceptTurn, start_accept}
use sylar_leo.TcpServer.Accepting.{strays, start_accept_lem}
use sylar_leo.TcpServer.Binding.{count, held_by}

abbrev answers : Answers
answers = record {
  fresh = some 5;
  probe_fresh = none;
  probe_ok = false;
  ok = true;
  sockname = some (codes "0.0.0.0:80");
  peername = none;
}

abbrev any : Address
any = record { kind = ipv4_address; family = af_inet; bytes = codes "0.0.0.0:80" }

abbrev attempts : List Attempt
attempts =
    record { address = any; answers = answers; listens = true }
    ∷ record {
      address = any;
      answers = record answers { fresh = some 6; ok = false };
      listens = true;
    }
    ∷ []

abbrev system : System
system = record { fds = 3 ∷ []; options = [] }

abbrev known : FdCtx
known = record {
  is_init = true;
  is_socket = true;
  sys_nonblock = true;
  user_nonblock = false;
  is_closed = false;
  fd = 5;
  recv_timeout = no_timeout;
  send_timeout = no_timeout;
}

-- A client, a descriptor that FdManager does not know, and the end.
abbrev turns : List AcceptTurn
turns =
    record { stopped = false; answers = answers; ctx = some known }
    ∷ record { stopped = false; answers = record answers { fresh = some 6 }; ctx = none }
    ∷ record { stopped = true; answers = answers; ctx = none }
    ∷ []

start_accept_lem_example :
    count 6 (start_accept turns (create_tcp af_inet) system).1.fds
    ≡ count 6 (held_by (start_accept turns (create_tcp af_inet) system).0)
      + (count 6 (strays turns) + count 6 system.fds)
start_accept_lem_example = start_accept_lem turns (create_tcp af_inet) system 6
