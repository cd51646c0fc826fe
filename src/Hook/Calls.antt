-- ===== src/Hook/Calls.antt =====
-- sylar/hook.cpp: the hooked calls other than reads and writes, on the table of descriptors.
-- The answer of the system call itself is an argument.
pub mod Flags
pub mod Timeouts
use sylar_leo.Base.{
  ℕ, ◌+◌, ◌-◌, ◌*◌, ◌/◌, ◌%◌, ◌^◌, Bool, true, false, not, ◌||◌, Option, none, some, List, [], ◌∷◌,
  ◌++◌, ◌==◌, if◌then◌else◌,
}
use sylar_leo.FdManager.{
  FdCtx, Stat, TimeoutType, receive, set_timeout, FdManager, get, del, update_ctx, no_timeout,
}
use sylar_leo.Hook.{
  Answer, done, error, Turn, Wake, Action, call_fun, add_event, yield_to_hold, cancle_event,
  add_timer, Run, timer_start, timer_stop, timed_out, context, do_io, ebadf, etimedout, einprogress,
}

-- O_NONBLOCK is the bit of weight 2048 of the flags, an `int` of 32 bits.
abbrev pub nonblock : ℕ → Bool
nonblock flags = flags / 2048 % 2 == 1

pub with_nonblock : ℕ → ℕ
with_nonblock flags = if nonblock flags then flags else flags + 2048

pub without_nonblock : ℕ → ℕ
without_nonblock flags = if nonblock flags then flags - 2048 else flags

-- Whether `fcntl` and `ioctl` leave the descriptor to the system.
abbrev pub unmanaged : FdCtx → Bool
unmanaged ctx = ctx.is_closed || not ctx.is_socket

abbrev pub set_user_nonblock : Bool → FdCtx → FdCtx
set_user_nonblock v ctx = record ctx { user_nonblock = v }

-- `fcntl(fd, F_SETFL, arg)`: the table, and the flags that go to the system.
pub fcntl_setfl : ℕ → ℕ → FdManager → FdManager × ℕ
unfolding with_nonblock without_nonblock
fcntl_setfl fd arg m = elim (context fd m) [
  | none ↦ (m, arg)
  | some ctx ↦ if unmanaged ctx then (m, arg) else (
    update_ctx fd (set_user_nonblock (nonblock arg) ctx) m,
    if ctx.sys_nonblock then with_nonblock arg else without_nonblock arg,
  )
]

-- `fcntl(fd, F_GETFL)` where the system answers `flags`.
pub fcntl_getfl : ℕ → (flags : ℕ) → FdManager → ℕ
unfolding with_nonblock without_nonblock
fcntl_getfl fd flags m = elim (context fd m) [
  | none ↦ flags
  | some ctx ↦
      if unmanaged ctx
      then flags
      else (if ctx.user_nonblock then with_nonblock flags else without_nonblock flags)
]

-- `ioctl(d, FIONBIO, &arg)`: the system gets `arg` as it is.
pub ioctl_fionbio : ℕ → ℕ → FdManager → FdManager × ℕ
ioctl_fionbio d arg m = elim (context d m) [
  | none ↦ (m, arg)
  | some ctx ↦
      if unmanaged ctx
      then (m, arg)
      else (update_ctx d (set_user_nonblock (not (arg == 0)) ctx) m, arg)
]

-- `setsockopt` of SO_RCVTIMEO or SO_SNDTIMEO.
unfoldable pub setsockopt_timeout :
    (hook_enable : Bool) → ℕ → TimeoutType → (tv_sec tv_usec : ℕ) → FdManager → FdManager
setsockopt_timeout hook_enable sockfd optname tv_sec tv_usec m =
    let hooked : FdManager = elim (context sockfd m) [
      | none ↦ m
      | some ctx ↦
          update_ctx sockfd (set_timeout optname ((tv_sec * 1000 + tv_usec / 1000) % 2 ^ 64) ctx) m
    ] in
    if hook_enable then hooked else m

-- `socket`, where the system answers with a descriptor or an error.
pub socket : (hook_enable : Bool) → Answer → (stat : Stat) → FdManager → Option FdManager
socket hook_enable (error e) stat m = some m
socket hook_enable (done fd) stat m =
    let hooked : Option FdManager = elim (get (some fd) true stat m) [
      | none ↦ none
      | some (m', ctx) ↦ some m'
    ] in
    if hook_enable then hooked else some m

-- What `accept` does with the answer of `do_io`.
accepted : Option Answer → (stat : Stat) → FdManager → Option FdManager
accepted none stat m = some m
accepted (some (error e)) stat m = some m
accepted (some (done fd)) stat m = elim (get (some fd) true stat m) [
  | none ↦ none
  | some (m', ctx) ↦ some m'
]

unfoldable pub accept :
    (hook_enable : Bool) → ℕ → (stat : Stat) → FdManager → List Turn → Run × Option FdManager
unfolding accepted
accept hook_enable s stat m turns =
    let (actions, r) = do_io hook_enable s receive m turns in ((actions, r), accepted r stat m)

-- `close`: whether the events of the descriptor are cancelled, and the table.
pub close : (hook_enable has_iom : Bool) → ℕ → FdManager → Bool × FdManager
close hook_enable has_iom fd m =
    let hooked : Bool × FdManager = elim (context fd m) [
      | none ↦ (false, m)
      | some ctx ↦ (has_iom, del fd m)
    ] in
    if hook_enable then hooked else (false, m)

-- The end of `connect_with_timeout`: `so_error` is what `getsockopt` of SO_ERROR finds, or the error it
-- fails with.
connected : Answer → Answer
connected (error e) = error e
connected (done so_error) = if so_error == 0 then done 0 else error so_error

-- From the timer of `connect_with_timeout` on.
pub connect_wait : ℕ → (event_error : Option ℕ) → Wake → (so_error : Answer) → Run
unfolding timer_start timer_stop timed_out connected
connect_wait to (some e) wake so_error =
    (timer_start to ++ add_event ∷ timer_stop to, some (connected so_error))
connect_wait to none wake so_error =
    if timed_out to wake
    then (
      timer_start to ++ add_event ∷ yield_to_hold ∷ cancle_event ∷ timer_stop to,
      some (error etimedout),
    )
    else (timer_start to ++ add_event ∷ yield_to_hold ∷ timer_stop to, some (connected so_error))

connect_answered : ℕ → Answer → Option ℕ → Wake → Answer → Run
unfolding connect_wait
connect_answered to (done n) event_error wake so_error = ([], some (done n))
connect_answered to (error e) event_error wake so_error =
    if e == einprogress then connect_wait to event_error wake so_error else ([], some (error e))

pub connect_with_timeout :
    (hook_enable : Bool) → ℕ → ℕ → Turn → (so_error : Answer) → FdManager → Run
unfolding connect_answered
connect_with_timeout hook_enable fd to t so_error m =
    let direct : Run = (call_fun ∷ [], some t.answer) in
    let (actions, r) = connect_answered to t.answer t.event_error t.wake so_error in
    let hooked : Run = elim (context fd m) [
      | none ↦ ([], some (error ebadf))
      | some ctx ↦
          if ctx.is_closed
          then ([], some (error ebadf))
          else (if not ctx.is_socket
              then direct
              else (if ctx.user_nonblock then direct else (call_fun ∷ actions, r)))
    ] in
    if hook_enable then hooked else direct

-- The sleeping calls: a timer that schedules the fiber again. `nanosleep` keeps its time in an `int`.
sleep_for : (hook_enable : Bool) → ℕ → (system : Answer) → Run
sleep_for hook_enable ms system =
    if hook_enable
    then (add_timer ms ∷ yield_to_hold ∷ [], some (done 0))
    else (call_fun ∷ [], some system)

pub sleep : (hook_enable : Bool) → (seconds : ℕ) → Answer → Run
sleep hook_enable seconds system = sleep_for hook_enable (seconds * 1000 % 2 ^ 32) system

pub usleep : (hook_enable : Bool) → (usec : ℕ) → Answer → Run
usleep hook_enable usec system = sleep_for hook_enable (usec / 1000) system
