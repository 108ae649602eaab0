-- ===== src/Net/Socket.antt =====
-- `AsyncSocket` of include/jellybean/net/async_socket.hpp and src/net/async_socket.cpp, once the reactor
-- resumes its awaiter. The kernel is no code of the repository: what `recv` answers is a field of
-- `Kernel`, with what its manual says of the number of bytes.
pub mod Delivery
use jellybean.Base.{ℕ, zero, suc, ◌-◌, ◌≤◌, ◌<◌, ◌≡◌, List, [], ◌++◌, length, ◌==◌, if◌then◌else◌}

-- What `recv` answers: bytes, the end of the stream, EAGAIN, or another error.
pub data Received : Type 0 where
  got : List ℕ → Received
  closed would_block failed : Received

-- How many bytes `send` takes is not looked at by its callers.
pub record Kernel (S : Type 0) : Type 0 where
  pub recv : ℕ → S → Received × S
  pub send : List ℕ → S → S
  pub recv_lem :
      (want : ℕ) (s s' : S) (bs : List ℕ)
      → recv want s ≡ (got bs, s')
      → (0 < length bs) × (length bs ≤ want)

-- The result of a read: the bytes in the buffer, as many as the number says, or -1.
pub data ReadResult : Type 0 where
  read_bytes : List ℕ → ReadResult
  read_error : ReadResult

module _ {S : Type 0} (kernel : Kernel S) where
  open kernel use {recv, send}

  abbrev pub behind : List ℕ → ReadResult × S → ReadResult × S
  behind bs (read_bytes cs, s) = (read_bytes (bs ++ cs), s)
  behind bs (read_error, s) = (read_error, s)

  -- A round of the loop of `AsyncReadAwaitable::await_resume`, with what `recv` answered.
  abbrev pub read_round : (List ℕ → S → ReadResult × S) → Received × S → ReadResult × S
  read_round more (got bs, s) = behind bs (more bs s)
  read_round more (closed, s) = (read_bytes [], s)
  read_round more (would_block, s) = (read_bytes [], s)
  read_round more (failed, s) = (read_error, s)

  -- The loop, with the bytes that are left to read.
  unfoldable pub read_loop : ℕ → ℕ → S → ReadResult × S
  read_loop zero want s = (read_bytes [], s)
  read_loop (suc rounds) zero s = (read_bytes [], s)
  read_loop (suc rounds) (suc want) s =
      read_round (λ bs s'. read_loop rounds (suc want - length bs) s') (recv (suc want) s)

  -- A read of `len` bytes: no round but the last gives none, so that there are no more than `len`.
  unfoldable pub read : ℕ → S → ReadResult × S
  unfolding read_loop
  read len s = read_loop len len s

  -- `AsyncWriteAwaitable::await_resume`: one `send`.
  unfoldable pub write : List ℕ → S → S
  write bs s = send bs s
