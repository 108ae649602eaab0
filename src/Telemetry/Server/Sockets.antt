-- ===== src/Telemetry/Server/Sockets.antt =====
-- What the calls of the metrics server leave open.
use jellybean.Base.{
  ℕ, ◌+◌, ◌≡◌, ◌⊎◌, refl, ap, ◌∙◌, arith, Bool, true, false, not, inl, inr, Option, none, some,
  List, [], ◌∷◌, ◌==◌, if◌then◌else◌,
}
use jellybean.Telemetry.Server.{
  Answers, Server, make_server, remove, close, give_up, open_socket, start, close_listen, stop,
}

abbrev pub IsStopped : Server → Type 0
IsStopped s = (s.stopped ≡ true) × (s.sockets ≡ []) × (s.thread ≡ false) × (s.opened ≡ s.closed)

-- A server that runs has its listening socket, and a thread.
abbrev pub IsRunning : Server → Type 0
IsRunning s =
    (fd : ℕ) × (s.stopped ≡ false)
    × (s.sockets ≡ fd ∷ [])
    × (s.thread ≡ true)
    × (s.listen_fd ≡ some fd)
    × (s.opened ≡ s.closed + 1)

abbrev pub IsValid : Server → Type 0
IsValid s = IsStopped s ⊎ IsRunning s

remove-first : (fd : ℕ) (xs : List ℕ) → remove fd (fd ∷ xs) ≡ xs
remove-first fd xs =
    ap (λ b. if b then xs else fd ∷ remove fd xs) (let e : (fd == fd) ≡ true = ground arith in e)

give_up-IsStopped :
    (fd : ℕ) (s : Server)
    → s.sockets ≡ []
    → s.thread ≡ false
    → s.opened ≡ s.closed
    → IsStopped (
        give_up fd
          (record s { listen_fd = some fd; sockets = fd ∷ s.sockets; opened = s.opened + 1 }))
unfolding give_up close
give_up-IsStopped fd s e e' n = (refl, remove-first fd s.sockets ∙ e, e', ap (λ (k : ℕ). k + 1) n)

abbrev made : ℕ → Server → Server
made fd s = record s { listen_fd = some fd; sockets = fd ∷ s.sockets; opened = s.opened + 1 }

answered :
    (a : Answers) (fd : ℕ) (s : Server)
    → s.stopped ≡ false
    → s.sockets ≡ []
    → s.thread ≡ false
    → s.opened ≡ s.closed
    → (binds listens : Bool)
    → IsValid (
        if not binds
        then give_up fd (made fd s)
        else if not listens
        then give_up fd (made fd s)
        else record (made fd s) { thread = true })
answered a fd s run e e' n false listens = inl (give_up-IsStopped fd s e e' n)
answered a fd s run e e' n true false = inl (give_up-IsStopped fd s e e' n)
answered a fd s run e e' n true true =
    inr (fd, run, ap (λ xs. fd ∷ xs) e, refl, refl, ap (λ (k : ℕ). k + 1) n)

open_socket-IsValid :
    (a : Answers) (o : Option ℕ) (s : Server)
    → s.stopped ≡ false
    → s.sockets ≡ []
    → s.thread ≡ false
    → s.opened ≡ s.closed
    → IsValid (open_socket a o s)
unfolding open_socket
open_socket-IsValid a none s run e e' n = inl (refl, e, e', n)
open_socket-IsValid a (some fd) s run e e' n = answered a fd s run e e' n a.binds a.listens

start-IsValid : (a : Answers) (s : Server) → IsValid s → IsValid (start a s)
unfolding start
start-IsValid a s (inl (rests, e, e', n)) =
    rw rests (open_socket-IsValid a a.socket (record s { stopped = false }) refl e e' n)
start-IsValid a s (inr (fd, run, e, thread, at, n)) = rw run (inr (fd, refl, e, thread, at, n))

stop-IsStopped : (s : Server) → IsValid s → IsStopped (stop s)
unfolding stop close_listen close
stop-IsStopped s (inl (rests, e, e', n)) = rw rests (refl, e, e', n)
stop-IsStopped s (inr (fd, run, e, thread, at, n)) =
    rw (run, at) (refl, ap (remove fd) e ∙ remove-first fd [], refl, n)

-- Calls, with the kernel's answers.
pub data Call : Type 0 where
  starts : Answers → Call
  stops : Call

unfoldable pub calls : List Call → Server → Server
unfolding start stop
calls [] s = s
calls (starts a ∷ cs) s = calls cs (start a s)
calls (stops ∷ cs) s = calls cs (stop s)

calls-IsValid : (cs : List Call) (s : Server) → IsValid s → IsValid (calls cs s)
unfolding calls
calls-IsValid [] s v = v
calls-IsValid (starts a ∷ cs) s v = calls-IsValid cs (start a s) (start-IsValid a s v)
calls-IsValid (stops ∷ cs) s v = calls-IsValid cs (stop s) (inl (stop-IsStopped s v))

-- Whatever calls of start and stop a new server has had and whatever the kernel answered: it is
-- stopped, without sockets and a thread, or it has its listening socket, no other one, and a thread;
-- and the destructor leaves no socket and no thread. Every socket is closed once, by then.
pub calls-IsStopped :
    (cs : List Call) → IsValid (calls cs make_server) × IsStopped (stop (calls cs make_server))
calls-IsStopped cs =
    let v = calls-IsValid cs make_server (inl (refl, refl, refl, refl)) in
    (v, stop-IsStopped (calls cs make_server) v)
