-- ===== src/FdManager.antt =====
-- sylar/fd_manager.h and sylar/fd_manager.cpp: what is kept of each file descriptor, and the table of it.
-- A descriptor is `none` for -1. What the system says of a descriptor is an argument.
pub mod Table
mod Examples
use sylar_leo.Base.{
  ℕ, suc, ◌+◌, ◌-◌, ◌*◌, ◌/◌, ◌^◌, Bool, true, false, not, Option, none, some, List, [], ◌∷◌, ◌++◌,
  leb, ltb, if◌then◌else◌, length, get_elem?, set, take, replicate,
}

pub record FdCtx : Type 0 where
  pub is_init : Bool
  pub is_socket : Bool
  pub sys_nonblock : Bool
  pub user_nonblock : Bool
  pub is_closed : Bool
  pub fd : ℕ
  pub recv_timeout : ℕ
  pub send_timeout : ℕ

abbrev pub no_timeout : ℕ
no_timeout = 2 ^ 64 - 1

-- What `fstat` and, for a socket, `fcntl_f(F_GETFL)` say: `fstat` fails, the descriptor is no socket, or it
-- is a socket that has O_NONBLOCK already or not.
pub data Stat : Type 0 where
  failed : Stat
  no_socket : Stat
  a_socket : (nonblock : Bool) → Stat

unfoldable pub stat_socket : Stat → Bool
stat_socket failed = false
stat_socket no_socket = false
stat_socket (a_socket nonblock) = true

unfoldable pub stat_known : Stat → Bool
stat_known failed = false
stat_known no_socket = true
stat_known (a_socket nonblock) = true

-- Whether `init` calls the hooked `fcntl`, to make the socket non-blocking.
unfoldable pub calls_fcntl : Stat → Bool
calls_fcntl failed = false
calls_fcntl no_socket = false
calls_fcntl (a_socket nonblock) = not nonblock

-- The context that the constructor leaves where it returns.
pub new_fd_ctx : ℕ → Stat → FdCtx
new_fd_ctx fd stat = record {
  is_init = stat_known stat;
  is_socket = stat_socket stat;
  sys_nonblock = stat_socket stat;
  user_nonblock = false;
  is_closed = false;
  fd = fd;
  recv_timeout = no_timeout;
  send_timeout = no_timeout;
}

-- SO_RCVTIMEO and SO_SNDTIMEO.
pub data TimeoutType : Type 0 where
  receive send : TimeoutType

unfoldable pub set_timeout : TimeoutType → ℕ → FdCtx → FdCtx
set_timeout receive v c = record c { recv_timeout = v }
set_timeout send v c = record c { send_timeout = v }

unfoldable pub get_timeout : TimeoutType → FdCtx → ℕ
get_timeout receive c = c.recv_timeout
get_timeout send c = c.send_timeout

-- `m_datas`: an entry is `none` for the null pointer.
abbrev pub FdManager : Type 0
FdManager = List (Option FdCtx)

unfoldable pub new_fd_manager : FdManager
new_fd_manager = replicate 64 none

-- `resize` of the vector to `n` entries.
pub resize : ℕ → FdManager → FdManager
resize n m = take n m ++ replicate (n - length m) none

-- `m_datas[fd]` where the vector has an entry at `fd`.
abbrev pub entry : ℕ → FdManager → Option FdCtx
entry fd m = elim (get_elem? m fd) [ none ↦ none | some e ↦ e ]

-- The second half of `get`, which holds the lock for writing. `none`: a write behind the end of the vector,
-- or the hooked `fcntl` that `init` calls asks for the same lock for reading, which the thread may wait for
-- without end.
create : ℕ → Stat → FdManager → Option (FdManager × Option FdCtx)
unfolding new_fd_ctx resize calls_fcntl
create fd stat m =
    let ctx = new_fd_ctx fd stat in
    let m' = if leb (length m) fd then resize (fd * 3 / 2) m else m in
    if calls_fcntl stat
    then none
    else if ltb fd (length m')
    then some (set m' fd (some ctx), some ctx)
    else none

pub get : Option ℕ → Bool → Stat → FdManager → Option (FdManager × Option FdCtx)
get none auto_create stat m = some (m, none)
get (some fd) auto_create stat m =
    let found : Option (FdManager × Option FdCtx) = elim (entry fd m) [
      | some ctx ↦ some (m, some ctx)
      | none ↦ if auto_create then create fd stat m else some (m, none)
    ] in
    if leb (length m) fd then (if auto_create then create fd stat m else some (m, none)) else found

pub del : ℕ → FdManager → FdManager
del fd m = if leb (length m) fd then m else set m fd none

-- A change of the context of `fd`, through the pointer that `get` returned.
pub update_ctx : ℕ → FdCtx → FdManager → FdManager
update_ctx fd ctx m = set m fd (some ctx)
