-- ===== src/Device/Time.antt =====
-- What the program assumes of the passing of time: `std::chrono::steady_clock` never goes back, also
-- across a call of the device.
use hamstercam.Base.{ℕ, ◌≤◌, ◌≡◌}
use hamstercam.Device.{Device, Clock}

-- `time w` is the reading of the steady clock in the world `w`.
pub record IsMonotone {W : Type 0} (dev : Device W) (clock : Clock W) : Type 0 where
  pub time : W → ℕ
  pub now_le : (w : W) → time w ≤ (clock.steady_now w).0
  pub now_eq : (w : W) → time (clock.steady_now w).1 ≡ (clock.steady_now w).0
  pub wall_le : (w : W) → time w ≤ time (clock.wall_now w).1
  pub open_le : (w : W) → time w ≤ time (dev.open_device w).1
  pub close_le : (w : W) → time w ≤ time (dev.close w)
  pub query_le : (w : W) → time w ≤ time (dev.query_format w).1
  pub start_le : (n : ℕ) (w : W) → time w ≤ time (dev.start_streaming n w).1
  pub stop_le : (w : W) → time w ≤ time (dev.stop_streaming w)
  pub dequeue_le : (t : ℕ) (w : W) → time w ≤ time (dev.dequeue_frame t w).1
  pub requeue_le : (i : ℕ) (w : W) → time w ≤ time (dev.requeue_frame i w)
