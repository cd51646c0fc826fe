-- ===== src/Hook/Calls/Timeouts.antt =====
-- How the hooked calls that change the table act on the calls that read it.
use sylar_leo.Base.{
  ℕ, ◌+◌, ◌*◌, ◌/◌, ◌%◌, ◌^◌, ◌≡◌, ◌≢◌, refl, sym, ◌∙◌, Bool, true, false, none, some, List,
}
use sylar_leo.FdManager.{
  FdCtx, Stat, calls_fcntl, TimeoutType, receive, send, get_timeout, set_timeout, FdManager, del,
}
use sylar_leo.FdManager.Table.{IsValid, get_returns, entry-del}
use sylar_leo.Hook.{done, Turn, context, do_io, do_io_with, direct, retry}
use sylar_leo.Hook.Calls.{setsockopt_timeout, accept, accepted, close}
use sylar_leo.Hook.Calls.Flags.{context_entry, context-update_ctx}

pub get_timeout-set_timeout :
    (type : TimeoutType) (v : ℕ) (ctx : FdCtx) → get_timeout type (set_timeout type v ctx) ≡ v
unfolding get_timeout set_timeout
get_timeout-set_timeout receive v ctx = refl
get_timeout-set_timeout send v ctx = refl

pub context-setsockopt_timeout :
    (fd : ℕ) (type : TimeoutType) (tv_sec tv_usec : ℕ) (m : FdManager) (ctx : FdCtx)
    → context fd m ≡ some ctx
    → context fd (setsockopt_timeout true fd type tv_sec tv_usec m)
      ≡ some (set_timeout type ((tv_sec * 1000 + tv_usec / 1000) % 2 ^ 64) ctx)
unfolding setsockopt_timeout
context-setsockopt_timeout fd type tv_sec tv_usec m ctx h =
    let v = (tv_sec * 1000 + tv_usec / 1000) % 2 ^ 64 in
    rw h (context-update_ctx fd ctx (set_timeout type v ctx) m h)

-- The context that `setsockopt` leaves is as blocking as the one before.
still_blocking :
    (type : TimeoutType) (v : ℕ) (ctx : FdCtx) (turns : List Turn)
    → ctx.is_closed ≡ false
    → ctx.is_socket ≡ true
    → ctx.user_nonblock ≡ false
    → do_io_with (set_timeout type v ctx) type turns ≡ retry v turns
unfolding do_io_with set_timeout get_timeout
still_blocking receive v ctx turns closed socket blocking = rw (closed, socket, blocking) refl
still_blocking send v ctx turns closed socket blocking = rw (closed, socket, blocking) refl

-- For an open socket that the user did not make non-blocking: after `setsockopt` of SO_RCVTIMEO or
-- SO_SNDTIMEO, a read or a write of that descriptor waits with the time given, in milliseconds.
pub do_io-setsockopt_timeout :
    (fd : ℕ) (type : TimeoutType) (tv_sec tv_usec : ℕ) (m : FdManager) (ctx : FdCtx)
    (turns : List Turn)
    → context fd m ≡ some ctx
    → ctx.is_closed ≡ false
    → ctx.is_socket ≡ true
    → ctx.user_nonblock ≡ false
    → do_io true fd type (setsockopt_timeout true fd type tv_sec tv_usec m) turns
      ≡ retry ((tv_sec * 1000 + tv_usec / 1000) % 2 ^ 64) turns
unfolding do_io setsockopt_timeout
do_io-setsockopt_timeout fd type tv_sec tv_usec m ctx turns h closed socket blocking =
    let v = (tv_sec * 1000 + tv_usec / 1000) % 2 ^ 64 in
    let later = context-update_ctx fd ctx (set_timeout type v ctx) m h in
    rw (h, later) (still_blocking type v ctx turns closed socket blocking)

-- When the descriptor has a context, the hooked `close` cancels its events where the thread has an
-- IOManager, and a later read or write of that number goes to the system at once.
pub do_io-close :
    (has_iom : Bool) (fd : ℕ) (type : TimeoutType) (m : FdManager) (ctx : FdCtx) (turns : List Turn)
    → context fd m ≡ some ctx
    → ((close true has_iom fd m).0 ≡ has_iom)
      × (do_io true fd type (close true has_iom fd m).1 turns ≡ direct turns)
unfolding do_io close
do_io-close has_iom fd type m ctx turns h =
    let gone : context fd (del fd m) ≡ none = context_entry fd (del fd m) ∙ entry-del fd m in
    (rw h refl, rw (h, gone) refl)

-- Where `accept` returns a descriptor that is non-blocking or no socket, hooked or not, it has a context afterwards, and the contexts of
-- all other descriptors are what they were.
pub accept-context :
    (hook_enable : Bool) (s n : ℕ) (stat : Stat) (m : FdManager) (turns : List Turn)
    → IsValid m
    → calls_fcntl stat ≡ false
    → (accept hook_enable s stat m turns).0.1 ≡ some (done n)
    → (m' : FdManager) × (ctx : FdCtx) × ((accept hook_enable s stat m turns).1 ≡ some m')
      × (context n m' ≡ some ctx)
      × ((j : ℕ) → n ≢ j → context j m' ≡ context j m)
unfolding accept
accept-context hook_enable s n stat m turns v quiet h =
    let (m', ctx, e, created) = get_returns n stat m v quiet in
    (
      m',
      ctx,
      rw (accept, h, accepted, e) refl,
      context_entry n m' ∙ created.there,
      λ j ne. context_entry j m' ∙ created.others j ne ∙ sym (context_entry j m),
    )
