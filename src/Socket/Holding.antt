-- ===== src/Socket/Holding.antt =====
-- Which descriptors a socket holds after each of its calls.
use sylar_leo.Base.{
  ℕ, ◌≡◌, refl, sym, ap, subst, ◌∙◌, Bool, true, false, not, Option, none, some, List, [], ◌∷◌,
  ◌++◌, arith, ◌==◌, if◌then◌else◌, Bool-cases, inl, inr,
}
use sylar_leo.Socket.{
  create_tcp, listen, AddressKind, unix_address, ipv4_address, ipv6_address, unknown_address,
  Address, Socket, System, State, Answers, af_unix, sock_stream, new_socket, valid, is_valid,
  init_sock, without_fd, new_sock, close_from, close, get_remote_address, get_local_address,
  make_valid, connect_sock, connect, reconnect_to, reconnect, probe, bind_sock, bind_kind, bind,
}

abbrev pub held : Option ℕ → List ℕ
held none = []
held (some fd) = fd ∷ []

-- Of the open descriptors, the socket holds its own and `rest` is not its concern; and where it is
-- connected, it has one.
pub record IsHeld (rest : List ℕ) (st : State) : Type 0 where
  pub owned : st.1.fds ≡ held st.0.sock ++ rest
  pub flagged : st.0.is_connected ≡ true → is_valid st.0 ≡ true

without_fd-head : (fd : ℕ) (rest : List ℕ) → without_fd fd (fd ∷ rest) ≡ rest
without_fd-head fd rest = ground arith

-- Closing leaves the socket with nothing.
pub record IsEmpty (rest : List ℕ) (st : State) : Type 0 where
  pub no_sock : st.0.sock ≡ none
  pub not_connected : st.0.is_connected ≡ false
  pub closed : st.1.fds ≡ rest

close_from-IsEmpty :
    (rest : List ℕ) (st : State) (o : Option ℕ)
    → st.0.sock ≡ o
    → IsHeld rest st
    → IsEmpty rest (close_from o st).1
close_from-IsEmpty rest (s, w) none e h = elim (Bool-cases s.is_connected) [
  | inl on ↦ rw on (record {
    no_sock = e;
    not_connected = refl;
    closed = subst (λ x. w.fds ≡ held x ++ rest) e h.owned;
  })
  | inr off ↦ rw off (record {
    no_sock = e;
    not_connected = refl;
    closed = subst (λ x. w.fds ≡ held x ++ rest) e h.owned;
  })
]
close_from-IsEmpty rest (s, w) (some fd) e h = record {
  no_sock = refl;
  not_connected = refl;
  closed =
      ap (without_fd fd) (subst (λ x. w.fds ≡ held x ++ rest) e h.owned) ∙ without_fd-head fd rest;
}

pub close-IsEmpty : (rest : List ℕ) (st : State) → IsHeld rest st → IsEmpty rest (close st).1
unfolding close
close-IsEmpty rest (s, w) h = close_from-IsEmpty rest (s, w) s.sock refl h

IsEmpty-IsHeld : (rest : List ℕ) (st : State) → IsEmpty rest st → IsHeld rest st
unfolding is_valid
IsEmpty-IsHeld rest (s, w) e = record {
  owned = subst (λ x. w.fds ≡ held x ++ rest) (sym e.no_sock) e.closed;
  flagged = λ on. absurd (ground (arith, on, e.not_connected));
}

-- The fields that the invariant reads.
IsHeld-same :
    (rest : List ℕ) (s s' : Socket) (w : System)
    → s'.sock ≡ s.sock
    → s'.is_connected ≡ s.is_connected
    → IsHeld rest (s, w)
    → IsHeld rest (s', w)
unfolding is_valid
IsHeld-same rest s s' w e f h = record {
  owned = rw e h.owned;
  flagged = λ on. rw e (h.flagged (sym f ∙ on));
}

pub init_sock-fds : (fd type : ℕ) (w : System) → (init_sock fd type w).fds ≡ w.fds
unfolding init_sock
init_sock-fds fd type w = elim (Bool-cases (type == sock_stream)) [
  | inl stream ↦ rw stream refl
  | inr other ↦ rw other refl
]

new_sock-IsHeld :
    (rest : List ℕ) (fresh : Option ℕ) (st : State)
    → is_valid st.0 ≡ false
    → IsHeld rest st
    → IsHeld rest (new_sock fresh st)
unfolding new_sock is_valid
new_sock-IsHeld rest fresh (s, w) off h = go fresh (unheld s.sock off h.owned)
  where
    unheld : (o : Option ℕ) → valid o ≡ false → w.fds ≡ held o ++ rest → w.fds ≡ rest
    unheld none v e = e
    unheld (some fd) v e = absurd (ground arith)

    go : (o : Option ℕ) → w.fds ≡ rest → IsHeld rest (new_sock o (s, w))
    go none e = record { owned = e; flagged = λ on. sym off ∙ h.flagged on }
    go (some fd) e = record {
      owned = init_sock-fds fd s.type (record w { fds = fd ∷ w.fds }) ∙ ap (λ l. fd ∷ l) e;
      flagged = λ on. refl;
    }

make_valid-IsHeld :
    (rest : List ℕ) (fresh : Option ℕ) (st : State)
    → IsHeld rest st
    → IsHeld rest (make_valid fresh st)
unfolding make_valid
make_valid-IsHeld rest fresh (s, w) h = elim (Bool-cases (is_valid s)) [
  | inl on ↦ rw on h
  | inr off ↦ rw off (new_sock-IsHeld rest fresh (s, w) off h)
]

pub close-IsHeld : (rest : List ℕ) (st : State) → IsHeld rest st → IsHeld rest (close st).1
close-IsHeld rest st h = IsEmpty-IsHeld rest (close st).1 (close-IsEmpty rest st h)

set_flag-IsHeld :
    (rest : List ℕ) (s : Socket) (w : System)
    → is_valid s ≡ true
    → IsHeld rest (s, w)
    → IsHeld rest (record s { is_connected = true }, w)
unfolding is_valid
set_flag-IsHeld rest s w on h = record { owned = h.owned; flagged = λ t. on }

connect_sock-IsHeld :
    (rest : List ℕ) (ans : Answers) (st : State)
    → is_valid st.0 ≡ true
    → IsHeld rest st
    → IsHeld rest (connect_sock ans st).1
unfolding connect_sock get_remote_address get_local_address
connect_sock-IsHeld rest ans (s, w) on h = elim (Bool-cases ans.ok) [
  | inl ok ↦ rw ok (
      IsHeld-same rest (record s { is_connected = true })
        (get_local_address ans.sockname
          (get_remote_address ans.peername (record s { is_connected = true })).1).1
        w refl refl (set_flag-IsHeld rest s w on h))
  | inr failed ↦ rw failed (close-IsHeld rest (s, w) h)
]

-- A guard on the descriptor and one on the family.
guarded-IsHeld :
    (rest : List ℕ) (st : State) (valid_ same : Bool) (r : Bool × State)
    → IsHeld rest st
    → (valid_ ≡ true → IsHeld rest r.1)
    → IsHeld rest (if not valid_ then (false, st) else if same then r else (false, st)).1
guarded-IsHeld rest st true true r h k = k refl
guarded-IsHeld rest st true false r h k = h
guarded-IsHeld rest st false same r h k = h

pub connect-IsHeld :
    (rest : List ℕ) (ans : Answers) (addr : Address) (st : State)
    → IsHeld rest st
    → IsHeld rest (connect ans addr st).1
unfolding connect
connect-IsHeld rest ans addr (s, w) h =
    let named = record s { remote_address = some addr } in
    let st = make_valid ans.fresh (named, w) in
    let ready : IsHeld rest st =
      make_valid-IsHeld rest ans.fresh (named, w) (IsHeld-same rest s named w refl refl h) in
    guarded-IsHeld rest st (is_valid st.0) (addr.family == st.0.family) (connect_sock ans st) ready
      (λ on. connect_sock-IsHeld rest ans st on ready)

pub reconnect-IsHeld :
    (rest : List ℕ) (ans : Answers) (st : State) → IsHeld rest st → IsHeld rest (reconnect ans st).1
unfolding reconnect
reconnect-IsHeld rest ans (s, w) h = go s.remote_address
  where
    go : (o : Option Address) → IsHeld rest (reconnect_to o ans (s, w)).1
    go none = h
    go (some addr) =
        connect-IsHeld rest ans addr (record s { local_address = none }, w)
          (IsHeld-same rest s (record s { local_address = none }) w refl refl h)

-- The probe closes what it opened.
probe-fds : (ans : Answers) (addr : Address) (w : System) → (probe ans addr w).1.fds ≡ w.fds
unfolding probe new_socket
probe-fds ans addr w =
    let ans' = record ans { fresh = ans.probe_fresh; ok = ans.probe_ok } in
    let h : IsHeld w.fds (connect ans' addr (new_socket af_unix sock_stream 0, w)).1 =
      connect-IsHeld w.fds ans' addr (new_socket af_unix sock_stream 0, w)
        (record { owned = refl; flagged = λ on. absurd (ground (arith, on)) }) in
    (close-IsEmpty w.fds (connect ans' addr (new_socket af_unix sock_stream 0, w)).1 h).closed

bind_sock-IsHeld :
    (rest : List ℕ) (ans : Answers) (st : State) → IsHeld rest st → IsHeld rest (bind_sock ans st).1
unfolding bind_sock get_local_address
bind_sock-IsHeld rest ans (s, w) h = elim (Bool-cases ans.ok) [
  | inl ok ↦ rw ok (IsHeld-same rest s (get_local_address ans.sockname s).1 w refl refl h)
  | inr failed ↦ rw failed h
]

bind_kind-IsHeld :
    (rest : List ℕ) (kind : AddressKind) (ans : Answers) (addr : Address) (st : State)
    → IsHeld rest st
    → IsHeld rest (bind_kind kind ans addr st).1
unfolding bind_kind is_valid
bind_kind-IsHeld rest unix_address ans addr (s, w) h =
    let h' : IsHeld rest (s, (probe ans addr w).1) = record {
      owned = probe-fds ans addr w ∙ h.owned;
      flagged = h.flagged;
    } in
    elim (Bool-cases (probe ans addr w).0) [
      | inl answered ↦ rw answered h'
      | inr silent ↦ rw silent (bind_sock-IsHeld rest ans (s, (probe ans addr w).1) h')
    ]
bind_kind-IsHeld rest ipv4_address ans addr st h = bind_sock-IsHeld rest ans st h
bind_kind-IsHeld rest ipv6_address ans addr st h = bind_sock-IsHeld rest ans st h
bind_kind-IsHeld rest unknown_address ans addr st h = bind_sock-IsHeld rest ans st h

pub bind-IsHeld :
    (rest : List ℕ) (ans : Answers) (addr : Address) (st : State)
    → IsHeld rest st
    → IsHeld rest (bind ans addr st).1
unfolding bind
bind-IsHeld rest ans addr (s, w) h =
    let st = make_valid ans.fresh (s, w) in
    let ready : IsHeld rest st = make_valid-IsHeld rest ans.fresh (s, w) h in
    guarded-IsHeld rest st (is_valid st.0) (addr.family == st.0.family)
      (bind_kind addr.kind ans addr st) ready
      (λ on. bind_kind-IsHeld rest addr.kind ans addr st ready)

pub new-IsHeld : (family : ℕ) (w : System) → IsHeld w.fds (create_tcp family, w)
unfolding create_tcp new_socket
new-IsHeld family w = record { owned = refl; flagged = λ on. absurd (ground (arith, on)) }

pub listen-IsHeld :
    (rest : List ℕ) (ok : Bool) (st : State) → IsHeld rest st → IsHeld rest (listen ok st).1
unfolding listen
listen-IsHeld rest ok (s, w) h = h
