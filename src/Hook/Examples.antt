-- ===== src/Hook/Examples.antt =====
-- A socket with descriptor 3, a call that is interrupted and then waits for its event, and a timeout.
use sylar_leo.Base.{ℕ, suc, ◌≡◌, refl, arith, true, false, none, some, List, [], ◌∷◌, ◌++◌, length}
use sylar_leo.FdManager.{FdCtx, FdManager, no_timeout}
use sylar_leo.Hook.{
  Answer, done, error, Turn, by_event, by_timer, eintr, eagain, etimedout, timed_out, retry,
}
use sylar_leo.Hook.Io.{
  settled, interrupted, awaited, AllTransient, none_left, and_then, calls, retry-settled,
  retry-answers,
}

abbrev turn_of : Answer → Turn
turn_of a = record { answer = a; event_error = none; wake = by_event }

abbrev late : Turn
late = record { answer = error eagain; event_error = none; wake = by_timer }

abbrev before : List Turn
before = turn_of (error eintr) ∷ turn_of (error eagain) ∷ []

before-AllTransient : (to : ℕ) → AllTransient to before
unfolding timed_out
before-AllTransient to =
    and_then (interrupted none by_event) (and_then (awaited by_event refl) none_left)

retry-settled_example : settled false (retry 50 (before ++ late ∷ [])).0 ≡ true
retry-settled_example = retry-settled 50 (before ++ late ∷ [])

retry-answers_example :
    ((retry 50 (before ++ turn_of (done 7) ∷ [])).1 ≡ some (done 7))
    × (calls (retry 50 (before ++ turn_of (done 7) ∷ [])).0 ≡ suc (length before))
retry-answers_example =
    retry-answers 50 before (turn_of (done 7)) [] (before-AllTransient 50) (λ e. ground (arith, e))
      (λ e. ground (arith, e))

late_run : (retry 50 (before ++ late ∷ [])).1 ≡ some (error etimedout)
unfolding retry
late_run = refl

abbrev socket_ctx : FdCtx
socket_ctx = record {
  is_init = true;
  is_socket = true;
  sys_nonblock = true;
  user_nonblock = false;
  is_closed = false;
  fd = 3;
  recv_timeout = no_timeout;
  send_timeout = no_timeout;
}

abbrev table : FdManager
table = none ∷ none ∷ none ∷ some socket_ctx ∷ []
