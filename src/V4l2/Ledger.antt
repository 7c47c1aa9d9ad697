-- ===== src/V4l2/Ledger.antt =====
-- The descriptors and mappings that the calls of src/v4l2_capture_device.cpp acquire and release, in
-- a ledger beside the kernel.
use hamstercam.Base.{
  ℕ, zero, suc, ◌≡◌, ◌≢◌, refl, Bool, ◌&&◌, Option, none, some, List, [], ◌∷◌, ◌++◌, ◌==◌, All,
  remove_first, listed, arith,
}
use hamstercam.V4l2.System.{Calls, Reply}
use hamstercam.V4l2.{MappedBuffer, V4l2CaptureDevice, xioctl, unmap_all}

pub record Watched (K : Type 0) : Type 0 where
  pub inner : K
  pub open_fds : List ℕ
  -- In the order of acquisition.
  pub mapped : List MappedBuffer

abbrev same_buffer : ℕ → ℕ → MappedBuffer → Bool
same_buffer address length b = b.address == address && b.length == length

abbrev pub mapping : ℕ → Option ℕ → List MappedBuffer
mapping length none = []
mapping length (some address) = record { address = address; length = length } ∷ []

-- A call that acquires and releases nothing.
abbrev pub pass : {K A : Type 0} → (K → A × K) → Watched K → A × Watched K
pass call s = let (r, k) = call s.inner in (r, record s { inner = k })

abbrev pub watch : {K : Type 0} → Calls K → Calls (Watched K)
watch calls = record {
  open_path = λ path s.
      let (fd, k) = calls.open_path path s.inner in
      (fd, record s { inner = k; open_fds = listed fd ++ s.open_fds });
  close_fd = λ fd s. record s {
    inner = calls.close_fd fd s.inner;
    open_fds = remove_first (λ x. x == fd) s.open_fds;
  };
  g_fmt = λ fd. pass (calls.g_fmt fd);
  enum_fmt = λ fd i. pass (calls.enum_fmt fd i);
  reqbufs = λ fd n. pass (calls.reqbufs fd n);
  querybuf = λ fd i. pass (calls.querybuf fd i);
  mmap = λ fd length offset s.
      let (address, k) = calls.mmap fd length offset s.inner in
      (address, record s { inner = k; mapped = s.mapped ++ mapping length address });
  munmap = λ address length s. record s {
    inner = calls.munmap address length s.inner;
    mapped = remove_first (same_buffer address length) s.mapped;
  };
  qbuf = λ fd i. pass (calls.qbuf fd i);
  dqbuf = λ fd. pass (calls.dqbuf fd);
  streamon = λ fd. pass (calls.streamon fd);
  streamoff = λ fd. pass (calls.streamoff fd);
  poll = λ fd t. pass (calls.poll fd t);
  now = pass calls.now;
}

-- The same entries in the ledger.
pub record SameLedger {K : Type 0} (s t : Watched K) : Type 0 where
  pub fds : t.open_fds ≡ s.open_fds
  pub maps : t.mapped ≡ s.mapped

-- The ledger has what the object knows of, and no mapping is at address 0, which the destructor
-- would take for none.
pub record Holds {K : Type 0} (d : V4l2CaptureDevice (Watched K)) : Type 0 where
  pub fds : d.kernel.open_fds ≡ listed d.fd
  pub maps : d.kernel.mapped ≡ d.buffers
  pub real : All (λ b. b.address ≢ 0) d.buffers

pub xioctl-pass :
    {K A : Type 0} (n : ℕ) (call : K → Reply A × K) (s : Watched K)
    → SameLedger s (xioctl n (pass call) s).1
unfolding xioctl
xioctl-pass zero call s = record { fds = refl; maps = refl }
xioctl-pass (suc n) call s =
    ground (arith, xioctl-pass n call (record s { inner = (call s.inner).1 }))

module _ {K : Type 0} (calls : Calls K) where
  pub unmap_all-releases :
      (bs : List MappedBuffer) (s : Watched K)
      → s.mapped ≡ bs
      → All (λ b. b.address ≢ 0) bs
      → ((unmap_all (watch calls) bs s).mapped ≡ [])
        × ((unmap_all (watch calls) bs s).open_fds ≡ s.open_fds)
  unfolding unmap_all
  unmap_all-releases [] s e h = (e, refl)
  unmap_all-releases (b ∷ bs) s e h =
      let s' = (watch calls).munmap b.address b.length s in
      let e' : s'.mapped ≡ bs = rw e (ground arith) in
      ground (arith, h, unmap_all-releases bs s' e' h.1)
