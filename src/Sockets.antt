-- ===== src/Sockets.antt =====
-- The system calls that src/http_server.cpp and src/progress_socket_server.cpp make, over the state `K`
-- of the world outside. They are parameters. `A` is an address that `getaddrinfo` finds.
pub mod Ledger
use hamstercam.Base.{ℕ, Bool, Option, List, Bytes}

-- A call that fails sets `errno`, which is given by its text, `strerror(errno)`.
pub data Attempt (A : Type 0) : Type 0 where
  ok : A → Attempt A
  refused : Bytes → Attempt A

-- What `poll` returns for one descriptor: -1, 0, or 1.
pub data Polled : Type 0 where
  poll_failed expired ready : Polled

-- What `recv` returns: nothing positive, or the bytes, the first of them and the others.
pub data Received : Type 0 where
  stopped : Received
  received : ℕ → Bytes → Received

-- A descriptor is `none` for -1. `stop_requested` is read from an atomic that any thread may set.
pub record Sockets (A K : Type 0) : Type 0 where
  pub getaddrinfo : Bytes → Bytes → K → Option (List A) × K
  pub freeaddrinfo : List A → K → K
  pub socket_for : A → K → Option ℕ × K
  pub reuse_address : ℕ → K → K
  pub bind_address : ℕ → A → K → Bool × K
  pub unix_socket : K → Attempt ℕ × K
  pub unlink : Bytes → K → K
  pub bind_path : ℕ → Bytes → K → Attempt (Unit {0}) × K
  pub listen : ℕ → ℕ → K → Attempt (Unit {0}) × K
  pub poll : Option ℕ → ℕ → K → Polled × K
  pub accept : Option ℕ → K → Option ℕ × K
  pub recv : ℕ → ℕ → K → Received × K
  pub send : ℕ → Bytes → K → Option ℕ × K
  pub close_fd : ℕ → K → K
  pub stop_requested : K → Bool × K
