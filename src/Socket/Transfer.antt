-- ===== src/Socket/Transfer.antt =====
-- sylar/socket.cpp: sending and receiving, which only a connected socket does, and the time-outs of a
-- socket, which the hooked calls read.
use sylar_leo.Base.{
  ℕ, ◌+◌, ◌-◌, ◌*◌, ◌/◌, ◌%◌, ◌^◌, ◌<◌, ◌≡◌, refl, ap, ◌∙◌, Bool, true, false, Option, none, some,
  List, arith, if◌then◌else◌, lt→ltb, ltb,
}
use sylar_leo.Base.Text.{Text}
use sylar_leo.FdManager.{FdCtx, FdManager, TimeoutType, get_timeout}
use sylar_leo.Hook.{Turn, context, do_io, retry}
use sylar_leo.Hook.Calls.{setsockopt_timeout}
use sylar_leo.Hook.Calls.Timeouts.{
  do_io-setsockopt_timeout, get_timeout-set_timeout, context-setsockopt_timeout,
}
use sylar_leo.Socket.{Address, Socket}

-- What the system calls get: the buffers of the message, and the address with the ones that name it.
pub record Message : Type 0 where
  pub iov : List Text
  pub name : Option Address

-- The eight transfer functions: the system call that each of them makes is the argument, `none` is -1
-- without a call.
unfoldable pub transfer {ℓ} :
    {R : Type ℓ} → (system_call : Option ℕ → Message → R) → Message → Socket → Option R
transfer system_call msg s = if s.is_connected then some (system_call s.sock msg) else none

-- `int` in a `timeval`: 32 bits, extended by its sign to 64.
abbrev pub as_int : ℕ → ℕ
as_int v = if ltb (v % 2 ^ 32) (2 ^ 31) then v % 2 ^ 32 else v % 2 ^ 32 + (2 ^ 64 - 2 ^ 32)

abbrev pub set_fd_timeout :
    Option ℕ → (hook_enable : Bool) → TimeoutType → ℕ → FdManager → FdManager
set_fd_timeout none hook_enable type v m = m
set_fd_timeout (some fd) hook_enable type v m =
    setsockopt_timeout hook_enable fd type (as_int (v / 1000)) (as_int (v % 1000 * 1000)) m

-- `setSendTimeout` and `setRecvTimeout`, for a time-out that is not negative.
unfoldable pub set_socket_timeout :
    (hook_enable : Bool) → TimeoutType → ℕ → Socket → FdManager → FdManager
set_socket_timeout hook_enable type v s m = set_fd_timeout s.sock hook_enable type v m

abbrev pub context_timeout : TimeoutType → Option FdCtx → Option ℕ
context_timeout type none = none
context_timeout type (some ctx) = some (get_timeout type ctx)

abbrev pub get_fd_timeout : Option ℕ → TimeoutType → FdManager → Option ℕ
get_fd_timeout none type m = none
get_fd_timeout (some fd) type m = context_timeout type (context fd m)

-- `getSendTimeout` and `getRecvTimeout`: `none` is -1.
unfoldable pub get_socket_timeout : TimeoutType → Socket → FdManager → Option ℕ
get_socket_timeout type s m = get_fd_timeout s.sock type m

pub as_int_small : (v : ℕ) → v < 2 ^ 31 → as_int v ≡ v
as_int_small v h = let e : v % 2 ^ 32 ≡ v = omega (arith, h) in rw (e, lt→ltb v (2 ^ 31) h) refl

whole_timeout :
    (v : ℕ)
    → v < 2 ^ 31 * 1000
    → (as_int (v / 1000) * 1000 + as_int (v % 1000 * 1000) / 1000) % 2 ^ 64 ≡ v
whole_timeout v h =
    rw (as_int_small (v / 1000) (omega (arith, h)), as_int_small (v % 1000 * 1000) (omega arith))
      (omega (arith, h))

hooks_off :
    (type : TimeoutType) (v fd : ℕ) (m : FdManager) → set_fd_timeout (some fd) false type v m ≡ m
unfolding setsockopt_timeout
hooks_off type v fd m = refl

-- For a socket whose descriptor FdManager knows as an open socket that is not non-blocking to its user,
-- and a time-out below 2^31 seconds: after `setSendTimeout` or `setRecvTimeout` on a thread with hooks
-- enabled, the getter returns the time-out in milliseconds, and a write or read of the descriptor on a
-- thread with hooks enabled waits that long. On a thread without hooks they change no context.
pub set_socket_timeout_lem :
    (type : TimeoutType) (v fd : ℕ) (s : Socket) (m : FdManager) (ctx : FdCtx) (turns : List Turn)
    → v < 2 ^ 31 * 1000
    → s.sock ≡ some fd
    → context fd m ≡ some ctx
    → ctx.is_closed ≡ false
    → ctx.is_socket ≡ true
    → ctx.user_nonblock ≡ false
    → (get_socket_timeout type s (set_socket_timeout true type v s m) ≡ some v)
      × (do_io true fd type (set_socket_timeout true type v s m) turns ≡ retry v turns)
      × (set_socket_timeout false type v s m ≡ m)
unfolding set_socket_timeout get_socket_timeout
set_socket_timeout_lem type v fd s m ctx turns small e known open_ socket blocking =
    let sec = as_int (v / 1000) in
    let usec = as_int (v % 1000 * 1000) in
    let t = (sec * 1000 + usec / 1000) % 2 ^ 64 in
    let whole : t ≡ v = whole_timeout v small in
    let kept = context-setsockopt_timeout fd type sec usec m ctx known in
    (
      ap (λ o. get_fd_timeout o type (set_fd_timeout o true type v m)) e
          ∙ ap (context_timeout type) kept
          ∙ ap some (get_timeout-set_timeout type t ctx ∙ whole),
      ap (λ o. do_io true fd type (set_fd_timeout o true type v m) turns) e
          ∙ do_io-setsockopt_timeout fd type sec usec m ctx turns known open_ socket blocking
          ∙ ap (λ x. retry x turns) whole,
      ap (λ o. set_fd_timeout o false type v m) e ∙ hooks_off type v fd m,
    )
