-- ===== src/Sockets/Ledger.antt =====
-- The descriptors and address lists that calls acquire and release, in a ledger beside the world.
use hamstercam.Base.{ℕ, ◌≡◌, ◌+◌, ◌-◌, ◌==◌, Option, none, some, List, ◌++◌, remove_first, listed}
use hamstercam.Sockets.{Attempt, ok, refused, Sockets}

-- `lists` counts the results of `getaddrinfo` that were not freed.
pub record Watched (K : Type 0) : Type 0 where
  pub inner : K
  pub open_fds : List ℕ
  pub lists : ℕ

abbrev pub granted : Attempt ℕ → Option ℕ
granted (ok fd) = some fd
granted (refused e) = none

abbrev pub found : {A : Type 0} → Option A → ℕ
found none = 0
found (some l) = 1

-- A call that acquires and releases nothing.
abbrev pub pass : {K A : Type 0} → (K → A × K) → Watched K → A × Watched K
pass call s = let (r, k) = call s.inner in (r, record s { inner = k })

abbrev pub watch : {A K : Type 0} → Sockets A K → Sockets A (Watched K)
watch net = record {
  getaddrinfo = λ host port s.
      let (r, k) = net.getaddrinfo host port s.inner in
      (r, record s { inner = k; lists = s.lists + found r });
  freeaddrinfo = λ l s. record s { inner = net.freeaddrinfo l s.inner; lists = s.lists - 1 };
  socket_for = λ a s.
      let (fd, k) = net.socket_for a s.inner in
      (fd, record s { inner = k; open_fds = listed fd ++ s.open_fds });
  reuse_address = λ fd s. record s { inner = net.reuse_address fd s.inner };
  bind_address = λ fd a. pass (net.bind_address fd a);
  unix_socket = λ s.
      let (r, k) = net.unix_socket s.inner in
      (r, record s { inner = k; open_fds = listed (granted r) ++ s.open_fds });
  unlink = λ path s. record s { inner = net.unlink path s.inner };
  bind_path = λ fd path. pass (net.bind_path fd path);
  listen = λ fd n. pass (net.listen fd n);
  poll = λ fd t. pass (net.poll fd t);
  accept = λ fd s.
      let (conn, k) = net.accept fd s.inner in
      (conn, record s { inner = k; open_fds = listed conn ++ s.open_fds });
  recv = λ fd n. pass (net.recv fd n);
  send = λ fd bytes. pass (net.send fd bytes);
  close_fd = λ fd s. record s {
    inner = net.close_fd fd s.inner;
    open_fds = remove_first (λ x. x == fd) s.open_fds;
  };
  stop_requested = pass net.stop_requested;
}

-- The ledger is as it was.
pub record SameLedger {K : Type 0} (s t : Watched K) : Type 0 where
  pub fds : t.open_fds ≡ s.open_fds
  pub lists : t.lists ≡ s.lists
