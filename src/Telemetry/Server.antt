-- ===== src/Telemetry/Server.antt =====
-- `MetricsServer` of include/jellybean/telemetry/metrics_export.hpp and
-- src/telemetry/metrics_export.cpp: its calls, with the answers of the kernel as arguments, and the
-- loop that writes a report to a client.
pub mod Sockets
pub mod Writing
use jellybean.Base.{
  ℕ, zero, suc, ◌+◌, ◌-◌, Bool, true, false, not, Option, none, some, List, [], ◌∷◌, ◌++◌, length,
  take, drop, ◌==◌, if◌then◌else◌,
}

-- What `socket`, `bind` and `listen` answer: a descriptor, and whether the others succeed.
pub record Answers : Type 0 where
  pub socket : Option ℕ
  pub binds : Bool
  pub listens : Bool

pub record Server : Type 0 where
  pub stopped : Bool
  pub listen_fd : Option ℕ
  pub thread : Bool  -- is there a thread in `accept_loop`?
  pub sockets : List ℕ  -- those that `socket` gave and that are not closed
  pub opened : ℕ  -- how many sockets there have been
  pub closed : ℕ  -- how many calls of close

abbrev pub make_server : Server
make_server = record {
  stopped = true;
  listen_fd = none;
  thread = false;
  sockets = [];
  opened = 0;
  closed = 0;
}

abbrev pub remove : ℕ → List ℕ → List ℕ
remove fd [] = []
remove fd (x ∷ xs) = if x == fd then xs else x ∷ remove fd xs

unfoldable pub close : ℕ → Server → Server
close fd s = record s { sockets = remove fd s.sockets; closed = s.closed + 1 }

-- `start` once `socket` has answered.
abbrev pub give_up : ℕ → Server → Server
unfolding close
give_up fd s = record (close fd s) { listen_fd = none; stopped = true }

unfoldable pub open_socket : Answers → Option ℕ → Server → Server
unfolding give_up
open_socket a none s = record s { listen_fd = none; stopped = true }
open_socket a (some fd) s =
    let made = record s { listen_fd = some fd; sockets = fd ∷ s.sockets; opened = s.opened + 1 } in
    if not a.binds
    then give_up fd made
    else if not a.listens
    then give_up fd made
    else record made { thread = true }

unfoldable pub start : Answers → Server → Server
unfolding open_socket
start a s = if s.stopped then open_socket a a.socket (record s { stopped = false }) else s

abbrev pub close_listen : Option ℕ → Server → Server
unfolding close
close_listen none s = s
close_listen (some fd) s = record (close fd s) { listen_fd = none }

-- The destructor calls it too.
unfoldable pub stop : Server → Server
unfolding close_listen
stop s =
    if not s.stopped
    then record (close_listen s.listen_fd (record s { stopped = true })) { thread = false }
    else s

-- A round of the loop that writes a report, with what `write` answered about the bytes that are left:
-- how many it took, or `none` for 0 or an error.
abbrev pub write_round {ℓ} :
    {S : Type ℓ} → (List ℕ → S → List ℕ × S) → List ℕ → Option ℕ × S → List ℕ × S
write_round more left (none, s) = ([], s)
write_round more left (some n, s) =
    (take n left ++ (more (drop n left) s).0, (more (drop n left) s).1)

-- The loop: the bytes that it gets written. `stops` tells of its test of `stopped_`.
module _ {ℓ} {S : Type ℓ} (answer : List ℕ → S → Option ℕ × S) (stops : S → Bool) where
  unfoldable pub write_loop : ℕ → List ℕ → S → List ℕ × S
  write_loop zero left s = ([], s)
  write_loop (suc rounds) [] s = ([], s)
  write_loop (suc rounds) (b ∷ left) s =
      let next =
        write_round (λ rest s'. write_loop rounds rest s') (b ∷ left) (answer (b ∷ left) s) in
      if stops s then ([], s) else next

  -- Every round but the last writes a byte, so that there are no more than the report has.
  unfoldable pub write_report : List ℕ → S → List ℕ × S
  unfolding write_loop
  write_report json s = write_loop (length json) json s
