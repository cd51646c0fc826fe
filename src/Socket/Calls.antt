-- ===== src/Socket/Calls.antt =====
-- Sequences of calls on a socket, and what `accept` returns.
use sylar_leo.Base.{
  ℕ, ◌≡◌, refl, Bool, true, false, Option, none, some, List, [], ◌∷◌, Bool-cases, inl, inr,
}
use sylar_leo.FdManager.{FdCtx}
use sylar_leo.Socket.Holding.{
  new-IsHeld, listen-IsHeld, IsHeld, close-IsHeld, close-IsEmpty, connect-IsHeld, reconnect-IsHeld,
  bind-IsHeld, init_sock-fds,
}
use sylar_leo.Socket.{
  Address, Socket, System, State, Answers, new_socket, close, get_remote_address, get_local_address,
  connect, reconnect, bind, listen, usable, init, accept_with, accept, create_tcp,
}

-- A call on a socket, with what the system answers to it.
pub data Call : Type 0 where
  calls_bind calls_connect : Answers → Address → Call
  calls_reconnect : Answers → Call
  calls_listen : Bool → Call
  calls_close : Call

pub call : Call → State → State
unfolding bind connect reconnect listen close
call (calls_bind ans addr) st = (bind ans addr st).1
call (calls_connect ans addr) st = (connect ans addr st).1
call (calls_reconnect ans) st = (reconnect ans st).1
call (calls_listen ok) st = (listen ok st).1
call calls_close st = (close st).1

pub run : List Call → State → State
unfolding call
run [] st = st
run (c ∷ calls) st = run calls (call c st)

call-IsHeld : (rest : List ℕ) (c : Call) (st : State) → IsHeld rest st → IsHeld rest (call c st)
unfolding call listen
call-IsHeld rest (calls_bind ans addr) st h = bind-IsHeld rest ans addr st h
call-IsHeld rest (calls_connect ans addr) st h = connect-IsHeld rest ans addr st h
call-IsHeld rest (calls_reconnect ans) st h = reconnect-IsHeld rest ans st h
call-IsHeld rest (calls_listen ok) st h = listen-IsHeld rest ok st h
call-IsHeld rest calls_close st h = close-IsHeld rest st h

run-all :
    (rest : List ℕ) (calls : List Call) (st : State) → IsHeld rest st → IsHeld rest (run calls st)
unfolding run
run-all rest [] st h = h
run-all rest (c ∷ calls) st h = run-all rest calls (call c st) (call-IsHeld rest c st h)

-- Whatever the system answers, after any sequence of `bind`, `connect`, `reconnect`, `listen` and
-- `close` on a new TCP socket: the descriptors open are those that were open before and the one the
-- socket holds, it holds one where it says that it is connected, and its destructor leaves open just
-- those that were open before.
pub run-IsHeld :
    (family : ℕ) (calls : List Call) (w : System)
    → IsHeld w.fds (run calls (create_tcp family, w))
      × ((close (run calls (create_tcp family, w))).1.1.fds ≡ w.fds)
unfolding create_tcp new_socket
run-IsHeld family calls w =
    let h : IsHeld w.fds (run calls (create_tcp family, w)) =
      run-all w.fds calls (create_tcp family, w) (new-IsHeld family w) in
    (h, (close-IsEmpty w.fds (run calls (create_tcp family, w)) h).closed)

-- The cases of `accept`.
pub data Accepted (ans : Answers) (ctx : Option FdCtx) (st : State)
    : Option Socket × System → Type 0 where
  nobody : ans.fresh ≡ none → Accepted ans ctx st (none, st.1)
  welcomed :
      {fd : ℕ} {s : Socket} {w : System}
      → ans.fresh ≡ some fd
      → usable ctx ≡ true
      → s.sock ≡ some fd
      → s.is_connected ≡ true
      → s.family ≡ st.0.family
      → w.fds ≡ fd ∷ st.1.fds
      → Accepted ans ctx st (some s, w)
  stray :
      {fd : ℕ} {w : System}
      → ans.fresh ≡ some fd
      → usable ctx ≡ false
      → w.fds ≡ fd ∷ st.1.fds
      → Accepted ans ctx st (none, w)

-- What `accept` does in each case: no descriptor and no socket; a connected socket for a descriptor
-- that FdManager knows as an open socket; no socket for any other descriptor, which then stays open.
pub accept_lem :
    (ans : Answers) (ctx : Option FdCtx) (st : State) → Accepted ans ctx st (accept ans ctx st)
unfolding accept init new_socket get_local_address get_remote_address
accept_lem ans ctx (s, w) = go ans.fresh refl
  where
    go : (o : Option ℕ) → ans.fresh ≡ o → Accepted ans ctx (s, w) (accept_with o ans ctx (s, w))
    go none e = nobody e
    go (some fd) e = elim (Bool-cases (usable ctx)) [
      | inl on ↦
          rw on
            (welcomed e on refl refl refl (init_sock-fds fd s.type (record w { fds = fd ∷ w.fds })))
      | inr off ↦ rw off (stray e off refl)
    ]
