-- ===== src/V4l2/Tries.antt =====
-- The two loops of src/v4l2_capture_device.cpp whose ends the kernel decides: `xioctl` and the
-- enumeration of formats in `query_compressed`.
use hamstercam.Base.{
  ℕ, zero, suc, ◌+◌, ◌≤◌, ◌≡◌, ◌≢◌, ◌⊎◌, inl, inr, refl, subst, Bool, true, Option, List, [], ◌∷◌,
  ◌==◌, if◌then◌else◌, length, arith,
}
use hamstercam.V4l2.System.{Calls, Reply, done, failed, eintr, einval, FormatDesc}
use hamstercam.V4l2.{xioctl, find_compressed}

-- One of the first `n + 1` tries is not interrupted.
abbrev pub Settles : {K A : Type 0} → ℕ → (K → Reply A × K) → K → Type 0
Settles zero call k = (call k).0 ≢ failed eintr
Settles (suc n) call k = ((call k).0 ≢ failed eintr) ⊎ Settles n call (call k).1

-- A call that is interrupted at most `n` times in a row is tried until it is not interrupted: with
-- fuel for `n` more tries or for any larger number `xioctl` ends with the same result, which is not
-- EINTR.
pub xioctl-Settles :
    {K A : Type 0} (n fuel : ℕ) (call : K → Reply A × K) (k : K)
    → n ≤ fuel
    → Settles n call k
    → ((xioctl fuel call k).0 ≢ failed eintr) × (xioctl fuel call k ≡ xioctl n call k)
unfolding xioctl
xioctl-Settles zero zero call k h s = (s, refl)
xioctl-Settles zero (suc fuel) call k h s = ground arith
xioctl-Settles (suc n) zero call k h s = absurd (omega arith)
xioctl-Settles (suc n) (suc fuel) call k h (inl s) = ground arith
xioctl-Settles (suc n) (suc fuel) call k h (inr s) =
    ground (arith, xioctl-Settles n fuel call (call k).1)

xioctl-reply :
    {K A : Type 0} (fuel : ℕ) (call : K → Reply A × K) (r : Reply A) (k : K)
    → r ≢ failed eintr
    → ((j : K) → (call j).0 ≡ r)
    → (xioctl fuel call k).0 ≡ r
unfolding xioctl
xioctl-reply zero call r k n h = h k
xioctl-reply (suc fuel) call r k n h = ground (arith, h k)

-- What a driver with these formats answers at an index.
abbrev pub entry : List FormatDesc → ℕ → Reply FormatDesc
entry [] i = failed einval
entry (f ∷ fs) zero = done f
entry (f ∷ fs) (suc i) = entry fs i

-- The flag of the first format listed for the code; true if there is none.
abbrev pub listed_compressed : List FormatDesc → ℕ → Bool
listed_compressed [] fourcc = true
listed_compressed (f ∷ fs) fourcc =
    if f.pixelformat == fourcc then f.compressed else listed_compressed fs fourcc

module _ {K : Type 0} (calls : Calls K) (patience : ℕ) (fd : Option ℕ) where
  abbrev Lists : List FormatDesc → ℕ → Type 0
  Lists fs i = (j : ℕ) (s : K) → (calls.enum_fmt fd (i + j) s).0 ≡ entry fs j

  Lists-head :
      (fs : List FormatDesc) (i : ℕ) (k : K)
      → entry fs 0 ≢ failed eintr
      → Lists fs i
      → (xioctl patience (calls.enum_fmt fd i) k).0 ≡ entry fs 0
  Lists-head fs i k n e =
      let same : i + 0 ≡ i = omega arith in
      xioctl-reply patience (calls.enum_fmt fd i) (entry fs 0) k n
        (λ s. subst (λ m. (calls.enum_fmt fd m s).0 ≡ entry fs 0) same (e 0 s))

  Lists-tail : (f : FormatDesc) (fs : List FormatDesc) (i : ℕ) → Lists (f ∷ fs) i → Lists fs (i + 1)
  Lists-tail f fs i e j s =
      let same : i + suc j ≡ i + 1 + j = omega arith in
      subst (λ m. (calls.enum_fmt fd m s).0 ≡ entry fs j) same (e (suc j) s)

  find_compressed-from :
      (fs : List FormatDesc) (fuel fourcc i : ℕ) (k : K)
      → length fs ≤ fuel
      → Lists fs i
      → (find_compressed calls patience fuel fd fourcc i k).0 ≡ listed_compressed fs fourcc
  unfolding find_compressed
  find_compressed-from [] zero fourcc i k h e = refl
  find_compressed-from [] (suc fuel) fourcc i k h e = ground (arith, Lists-head [] i k (λ q. cc) e)
  find_compressed-from (f ∷ fs) zero fourcc i k h e = absurd (omega arith)
  find_compressed-from (f ∷ fs) (suc fuel) fourcc i k h e =
      let k' = (xioctl patience (calls.enum_fmt fd i) k).1 in
      ground (
        arith,
        Lists-head (f ∷ fs) i k (λ q. cc) e,
        find_compressed-from fs fuel fourcc (i + 1) k' (omega arith) (Lists-tail f fs i e),
      )

  -- Over a driver that lists some formats and then fails, in whatever state, with fuel for as many,
  -- the enumeration ends with the flag of the first format of the code, or true if none is listed.
  pub find_compressed-listed :
      (fs : List FormatDesc) (fuel fourcc : ℕ) (k : K)
      → length fs ≤ fuel
      → ((j : ℕ) (s : K) → (calls.enum_fmt fd j s).0 ≡ entry fs j)
      → (find_compressed calls patience fuel fd fourcc 0 k).0 ≡ listed_compressed fs fourcc
  find_compressed-listed fs fuel fourcc k h e = find_compressed-from fs fuel fourcc 0 k h (λ j s.
      let same : j ≡ 0 + j = omega arith in
      subst (λ m. (calls.enum_fmt fd m s).0 ≡ entry fs j) same (e j s))
