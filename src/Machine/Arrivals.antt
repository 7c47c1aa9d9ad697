-- ===== src/Machine/Arrivals.antt =====
-- `check_arrival_rate` of src/capture_state_machine.cpp over the frames of one window.
use hamstercam.Base.{
  ℕ, ◌+◌, ◌*◌, ◌≤◌, ◌<◌, ◌≡◌, not, ◌&&◌, List, [], ◌∷◌, length, All, add_u32, ns_per_s,
  if◌then◌else◌, arith,
}
use hamstercam.Double.{Double}
use hamstercam.Stats.{ErrorReason}
use hamstercam.Stats
use hamstercam.Machine.State.{
  Machine, record_error, check_arrival_rate, flag_anomaly, rate_is_anomalous,
}

module _ {W F : Type 0} (fp : Double F) where
  -- The frames captured at the given times, one after the other.
  pub arrivals : List ℕ → Machine W F → Machine W F
  arrivals [] m = m
  arrivals (t ∷ ts) m = arrivals ts (check_arrival_rate fp t m)

  arrivals-open :
      (ts : List ℕ) (m : Machine W F)
      → All (λ t. t < m.rate_window_start + 2 * ns_per_s) ts
      → m.rate_window_frame_count + length ts < 4_294_967_296
      → arrivals ts m ≡ record m { rate_window_frame_count = m.rate_window_frame_count + length ts }
  unfolding arrivals check_arrival_rate add_u32
  arrivals-open [] m a h = ground arith
  arrivals-open (t ∷ ts) m (b, bs) h =
      let n = record m { rate_window_frame_count = m.rate_window_frame_count + 1 } in
      ground (arith, arrivals-open ts n bs)

  -- The frame that ends a window of two seconds decides on the rate of all frames of the window,
  -- itself included: the flag becomes whether that rate is anomalous, a geometry error is recorded
  -- only if it was not before, and a new window begins. The frames before it record nothing, and
  -- none of them changes the state of the machine or its events.
  pub arrivals-window :
      (ts : List ℕ) (now : ℕ) (m : Machine W F)
      → m.rate_window_frame_count ≡ 0
      → length ts + 1 < 4_294_967_296
      → All (λ t. t < m.rate_window_start + 2 * ns_per_s) ts
      → m.rate_window_start + 2 * ns_per_s ≤ now
      → let n = check_arrival_rate fp now (arrivals ts m) in
        let storm = rate_is_anomalous fp m (length ts + 1) now in
        (n.rate_anomaly_active ≡ storm)
        × (n.stats ≡ (
            if storm && not m.rate_anomaly_active
            then Stats.record_error ErrorReason.geometry m.stats
            else m.stats))
        × (n.rate_window_start ≡ now)
        × (n.rate_window_frame_count ≡ 0)
        × (n.state ≡ m.state)
        × (n.events ≡ m.events)
  unfolding check_arrival_rate flag_anomaly record_error add_u32 rate_is_anomalous
  arrivals-window ts now m z h a e = rw (arrivals-open ts m a (omega arith)) (ground arith)
