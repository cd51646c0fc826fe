-- ===== src/TcpServer/Accepting.antt =====
-- Which descriptors the loop of `startAccept` leaves open, and who holds them.
use sylar_leo.Base.{
  ℕ, ◌+◌, ◌≡◌, refl, ap, Option, none, some, List, [], ◌∷◌, ◌++◌, arith, if◌then◌else◌, Bool-cases,
  inl, inr,
}
use sylar_leo.FdManager.{FdCtx}
use sylar_leo.Socket.{Socket, System, Answers, usable, accept}
use sylar_leo.Socket.Holding.{held}
use sylar_leo.Socket.Calls.{Accepted, nobody, welcomed, stray, accept_lem}
use sylar_leo.TcpServer.{AcceptTurn, welcome, start_accept}
use sylar_leo.TcpServer.Binding.{count, count-append, held_by}

-- The new descriptor, unless FdManager knows it as a socket that is not closed.
abbrev pub unclaimed : Option FdCtx → Option ℕ → List ℕ
unclaimed ctx none = []
unclaimed none (some fd) = fd ∷ []
unclaimed (some ctx) (some fd) =
    if ctx.is_closed then fd ∷ [] else if ctx.is_socket then [] else fd ∷ []

-- Those of the turns up to the one that finds the server stopped.
abbrev pub strays : List AcceptTurn → List ℕ
strays [] = []
strays (turn ∷ turns) =
    let rest = unclaimed turn.ctx turn.answers.fresh ++ strays turns in
    if turn.stopped then [] else rest

abbrev pub client_fds : Option Socket → List ℕ
client_fds none = []
client_fds (some s) = held s.sock

usable-unclaimed :
    (ctx : Option FdCtx) (fd : ℕ) → unclaimed ctx (some fd) ≡ (if usable ctx then [] else fd ∷ [])
usable-unclaimed none fd = refl
usable-unclaimed (some ctx) fd = elim (Bool-cases ctx.is_closed) [
  | inl closed ↦ elim (Bool-cases ctx.is_socket) [
    | inl on ↦ rw (closed, on) refl
    | inr off ↦ rw (closed, off) refl
  ]
  | inr open_ ↦ elim (Bool-cases ctx.is_socket) [
    | inl on ↦ rw (open_, on) refl
    | inr off ↦ rw (open_, off) refl
  ]
]

-- One `accept` opens a descriptor that its client has, or one that nobody has.
Accepted-fds :
    (ans : Answers) (ctx : Option FdCtx) (sock : Socket) (w : System) (r : Option Socket × System)
    → Accepted ans ctx (sock, w) r
    → r.1.fds ≡ client_fds r.0 ++ (unclaimed ctx ans.fresh ++ w.fds)
Accepted-fds ans ctx sock w _ (nobody e) = rw e refl
Accepted-fds ans ctx sock w _ (welcomed {fd = fd} e on has c f open_now) =
    rw (e, usable-unclaimed ctx fd, on, has) open_now
Accepted-fds ans ctx sock w _ (stray {fd = fd} e off open_now) =
    rw (e, usable-unclaimed ctx fd, off) open_now

count-welcome :
    (x : ℕ) (client : Option Socket) (clients : List Socket)
    → count x (held_by (welcome client clients))
      ≡ count x (client_fds client) + count x (held_by clients)
count-welcome x none clients = omega arith
count-welcome x (some s) clients = count-append x (held s.sock) (held_by clients)

-- However often the loop of `startAccept` turns: the descriptors open afterwards are those open before,
-- those of the clients that it handed on, and, held by nobody, the descriptors that `accept` got without
-- FdManager knowing them as sockets that are not closed; each as often as it is open.
pub start_accept_lem :
    (turns : List AcceptTurn) (sock : Socket) (w : System) (x : ℕ)
    → count x (start_accept turns sock w).1.fds
      ≡ count x (held_by (start_accept turns sock w).0) + (count x (strays turns) + count x w.fds)
unfolding start_accept
start_accept_lem [] sock w x = omega arith
start_accept_lem (turn ∷ turns) sock w x = elim (Bool-cases turn.stopped) [
  | inl stopped ↦ rw stopped (omega arith)
  | inr goes_on ↦
      let r = accept turn.answers turn.ctx (sock, w) in
      let lost = unclaimed turn.ctx turn.answers.fresh in
      let later = start_accept turns sock r.1 in
      let one =
        Accepted-fds turn.answers turn.ctx sock w r (accept_lem turn.answers turn.ctx (sock, w)) in
      let a = ap (count x) one in
      let b = count-append x (client_fds r.0) (lost ++ w.fds) in
      let c = count-append x lost w.fds in
      let d = count-append x lost (strays turns) in
      let e = count-welcome x r.0 later.0 in
      rw goes_on (omega (arith, start_accept_lem turns sock r.1 x, a, b, c, d, e))
]
