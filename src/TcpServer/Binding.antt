-- ===== src/TcpServer/Binding.antt =====
-- What `bind` promises: every address or none, and no descriptor left open on failure.
use sylar_leo.Base.{
  ℕ, suc, ◌+◌, ◌≡◌, ◌≢◌, Bool, true, false, List, [], ◌∷◌, ◌++◌, arith, ◌==◌, if◌then◌else◌, length,
}
use sylar_leo.Socket.{Address, Socket, System}
use sylar_leo.Socket.Holding.{held}
use sylar_leo.TcpServer.{TcpServer, Progress}

-- How often a descriptor is in a list.
abbrev pub count : ℕ → List ℕ → ℕ
count x [] = 0
count x (y ∷ ys) = (if x == y then 1 else 0) + count x ys

abbrev pub held_by : List Socket → List ℕ
held_by [] = []
held_by (s ∷ socks) = held s.sock ++ held_by socks

pub count-append : (x : ℕ) (xs ys : List ℕ) → count x (xs ++ ys) ≡ count x xs + count x ys
count-append x [] ys = omega arith
count-append x (y ∷ xs) ys = omega (arith, count-append x xs ys)

-- The sockets hold just the open descriptors that are not among `rest`, each as often as it is open.
unfoldable pub Owns : List ℕ → List Socket → System → Type 0
Owns rest socks w = (x : ℕ) → count x w.fds ≡ count x (held_by socks) + count x rest

-- What one turn of the loop adds.
record IsTurn (rest : List ℕ) (p p' : Progress) : Type 0 where
  owned : Owns rest p'.bound p'.system
  one_more : length p'.bound + length p'.fails ≡ suc (length p.bound + length p.fails)
  kept : (more : List Address) × (p'.fails ≡ p.fails ++ more)

record IsLoop (rest : List ℕ) (n : ℕ) (p p' : Progress) : Type 0 where
  owned : Owns rest p'.bound p'.system
  more : length p'.bound + length p'.fails ≡ n + (length p.bound + length p.fails)
  kept : (failed : List Address) × (p'.fails ≡ p.fails ++ failed)

-- What `bind` returns for a list `fails`: every address bound, or nothing kept and the descriptors as
-- without the server.
pub data Bound (rest : List ℕ) (fails : List Address) (n : ℕ)
    : Bool × (TcpServer × (List Address × System)) → Type 0 where
  every :
      {t : TcpServer} {w : System}
      → fails ≡ []
      → length t.socks ≡ n
      → Owns rest t.socks w
      → Bound rest fails n (true, (t, ([], w)))
  nothing :
      {t : TcpServer} {w : System} (failed : List Address)
      → t.socks ≡ []
      → fails ++ failed ≢ []
      → ((x : ℕ) → count x w.fds ≡ count x rest)
      → Bound rest fails n (false, (t, (fails ++ failed, w)))
