-- ===== src/Daemon/Loop.antt =====
-- What the main loop of src/main.cpp does to the world and to the device's contract.
use hamstercam.Base.{ℕ, zero, suc, ◌-◌, ◌≡◌, refl, ◌∙◌, Bool, min, ltb, if_cases}
use hamstercam.Double.{Double}
use hamstercam.Device.{Device, Clock}
use hamstercam.Device.Protocol.{Monitored, monitor, monitor_clock}
use hamstercam.Machine.State.{Machine}
use hamstercam.Machine.{step}
use hamstercam.Machine.Protocol.{Conforms, step_in-Conforms}
use hamstercam.Machine.Worlds.{Keeps, step_in-Good}
use hamstercam.Daemon.{sleep_loop, interruptible_sleep, main_loop}

-- What two operations on the world beside the monitor are on the world with it.
abbrev pub beside : {W : Type 0} → (W → Bool × W) → Monitored W → Bool × Monitored W
beside f s = let (b, w) = f s.inner in (b, record s { inner = w })

abbrev pub beneath : {W : Type 0} → (ℕ → W → W) → ℕ → Monitored W → Monitored W
beneath f n s = record s { inner = f n s.inner }

module _ {W : Type 0} (stop : W → Bool × W) (sleep : ℕ → W → W) (P : W → Type 0)
    (stop_keeps : (w : W) → P w → P (stop w).1)
    (sleep_keeps : (n : ℕ) (w : W) → P w → P (sleep n w)) where
  sleep_loop-keeps : (fuel remaining : ℕ) (w : W) → P w → P (sleep_loop stop sleep fuel remaining w)
  unfolding sleep_loop
  sleep_loop-keeps zero remaining w h = h
  sleep_loop-keeps (suc fuel) remaining w h =
      let w' = (stop w).1 in
      let chunk = min remaining 100 in
      let s = stop_keeps w h in
      if_cases P (ltb 0 remaining) _ w
        (λ _.
          if_cases P (stop w).0 w' (sleep_loop stop sleep fuel (remaining - chunk) (sleep chunk w'))
            (λ _. s)
            (λ _.
              sleep_loop-keeps fuel (remaining - chunk) (sleep chunk w') (sleep_keeps chunk w' s)))
        (λ _. h)

  module _ {F : Type 0} (dev : Device W) (clock : Clock W) (fp : Double F)
      (k : Keeps dev clock P) where
    -- A property of the world that the device, the clocks, the test of the flag and the sleep keep
    -- holds after any turns of the main loop.
    pub main_loop-keeps :
        (turns : ℕ) (m : Machine W F)
        → P m.world
        → P (main_loop stop sleep dev clock fp turns m).world
    unfolding main_loop interruptible_sleep step
    main_loop-keeps zero m h = h
    main_loop-keeps (suc turns) m h =
        let m1 = record m { world = (stop m.world).1 } in
        let s = stop_keeps m.world h in
        let (n, wait) = step dev clock fp 200 m1 in
        let g = step_in-Good dev clock fp P k m1.state 200 m1 s in
        let n1 = record n { world = interruptible_sleep stop sleep wait n.world } in
        if_cases (λ (r : Machine W F). P r.world) (stop m.world).0 m1
          (main_loop stop sleep dev clock fp turns n1) (λ _. s)
          (λ _. main_loop-keeps turns n1 (sleep_loop-keeps wait wait n.world g))

-- The monitor says the same of two worlds.
abbrev SamePhase : {W : Type 0} → Monitored W → Monitored W → Type 0
SamePhase s t = (t.obeyed ≡ s.obeyed) × (t.phase ≡ s.phase)

module _ {W F : Type 0} (dev : Device W) (clock : Clock W) (fp : Double F) (stop : W → Bool × W)
    (sleep : ℕ → W → W) where
  pause-SamePhase :
      (n : ℕ) (s : Monitored W)
      → SamePhase s (interruptible_sleep (beside stop) (beneath sleep) n s)
  unfolding interruptible_sleep
  pause-SamePhase n s =
      sleep_loop-keeps (beside stop) (beneath sleep) (SamePhase s) (λ t h. h) (λ i t h. h) n n s
        (refl, refl)

  moved-Conforms :
      (m : Machine (Monitored W) F) (s : Monitored W)
      → SamePhase m.world s
      → Conforms m
      → Conforms (record m { world = s })
  moved-Conforms m s (o, p) h = record {
    obeyed = o ∙ h.obeyed;
    phase = p ∙ h.phase;
    recovering = h.recovering;
  }

  -- The main loop keeps the contract of the device as the state machine does.
  pub main_loop-Conforms :
      (turns : ℕ) (m : Machine (Monitored W) F)
      → Conforms m
      → Conforms
          (main_loop (beside stop) (beneath sleep) (monitor dev) (monitor_clock clock) fp turns m)
  unfolding main_loop step
  main_loop-Conforms zero m h = h
  main_loop-Conforms (suc turns) m h =
      let (b, w) = beside stop m.world in
      let m1 = record m { world = w } in
      let h1 = moved-Conforms m w (refl, refl) h in
      let (n, wait) = step (monitor dev) (monitor_clock clock) fp 200 m1 in
      let w' = interruptible_sleep (beside stop) (beneath sleep) wait n.world in
      let n1 = record n { world = w' } in
      let g = step_in-Conforms dev clock fp m1.state 200 m1 refl h1 in
      if_cases Conforms b m1
        (main_loop (beside stop) (beneath sleep) (monitor dev) (monitor_clock clock) fp turns n1)
        (λ _. h1)
        (λ _. main_loop-Conforms turns n1 (moved-Conforms n w' (pause-SamePhase wait n.world) g))
