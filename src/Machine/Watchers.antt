-- ===== src/Machine/Watchers.antt =====
-- What watches a device changes nothing that the state machine of src/capture_state_machine.cpp does.
use hamstercam.Base.{ℕ, ◌%◌, ◌≡◌, refl, ap, ◌∙◌, true, List}
use hamstercam.Double.{Double}
use hamstercam.Device.{Device, Clock}
use hamstercam.Device.Protocol.{closed, Monitored, monitor, monitor_clock}
use hamstercam.Machine.State.{DaemonConfig, Machine}
use hamstercam.Machine.Protocol.{Conforms, run-make-Conforms}
use hamstercam.Machine.Tally.{run-make-IsTallied}
use hamstercam.Machine.{make, run}
use hamstercam.Machine.Mirror.{Mirrors, view}
use hamstercam.Machine.Mirror.Steps.{run-make-view}
use hamstercam.Machine.Tallied.{Tallied, tally, tally_clock}

abbrev pub unmonitored : {W : Type 0} → Monitored W → W
unmonitored s = s.inner

abbrev pub untallied : {W : Type 0} → Tallied W → W
untallied s = s.inner

-- A mirror of a mirror.
pub both-Mirrors :
    {U V W : Type 0} (f : U → V) (g : V → W) (a : Device U) (b : Device V) (c : Device W)
    (ca : Clock U) (cb : Clock V) (cc : Clock W)
    → Mirrors f a b ca cb
    → Mirrors g b c cb cc
    → Mirrors (λ s. g (f s)) a c ca cc
both-Mirrors f g a b c ca cb cc k l = record {
  opening = λ s. l.opening (f s) ∙ ap (λ r. (r.0, g r.1)) (k.opening s);
  closing = λ s. l.closing (f s) ∙ ap g (k.closing s);
  querying = λ s. l.querying (f s) ∙ ap (λ r. (r.0, g r.1)) (k.querying s);
  starting = λ n s. l.starting n (f s) ∙ ap (λ r. (r.0, g r.1)) (k.starting n s);
  stopping = λ s. l.stopping (f s) ∙ ap g (k.stopping s);
  dequeuing = λ t s. l.dequeuing t (f s) ∙ ap (λ r. (r.0, g r.1)) (k.dequeuing t s);
  requeuing = λ i s. l.requeuing i (f s) ∙ ap g (k.requeuing i s);
  steady = λ s. l.steady (f s) ∙ ap (λ r. (r.0, g r.1)) (k.steady s);
  wall = λ s. l.wall (f s) ∙ ap (λ r. (r.0, g r.1)) (k.wall s);
}

module _ {W : Type 0} (dev : Device W) (clock : Clock W) where
  pub monitor-Mirrors : Mirrors unmonitored (monitor dev) dev (monitor_clock clock) clock
  monitor-Mirrors = record {
    opening = λ s. refl;
    closing = λ s. refl;
    querying = λ s. refl;
    starting = λ n s. refl;
    stopping = λ s. refl;
    dequeuing = λ t s. refl;
    requeuing = λ i s. refl;
    steady = λ s. refl;
    wall = λ s. refl;
  }

  tally-Mirrors : Mirrors untallied (tally dev) dev (tally_clock clock) clock
  tally-Mirrors = record {
    opening = λ s. refl;
    closing = λ s. refl;
    querying = λ s. refl;
    starting = λ n s. refl;
    stopping = λ s. refl;
    dequeuing = λ t s. refl;
    requeuing = λ i s. refl;
    steady = λ s. refl;
    wall = λ s. refl;
  }

  module _ {F : Type 0} (fp : Double F) (c : DaemonConfig) (w : W) (ts : List ℕ) where
    abbrev pub plain_run : Machine W F
    plain_run = run dev clock fp ts (make dev clock fp c w)

    abbrev pub monitored_run : Machine (Monitored W) F
    monitored_run = run (monitor dev) (monitor_clock clock) fp ts (
        make (monitor dev) (monitor_clock clock) fp c
          (record { inner = w; phase = closed; obeyed = true }))

    abbrev pub tallied_run : Machine (Tallied W) F
    tallied_run =
        run (tally dev) (tally_clock clock) fp ts
          (make (tally dev) (tally_clock clock) fp c (record { inner = w; frames = 0; bytes = 0 }))

    -- Every run of the state machine, over any device and clock, is the one that a monitor of the
    -- device's calls sees, and it keeps the call contract of `ICaptureDevice`; between steps the
    -- device is closed, open or streaming as the state says.
    pub plain_run-Conforms : (plain_run ≡ view unmonitored monitored_run) × Conforms monitored_run
    plain_run-Conforms = (
      run-make-view unmonitored (monitor dev) dev (monitor_clock clock) clock fp monitor-Mirrors c
          (record { inner = w; phase = closed; obeyed = true }) ts,
      run-make-Conforms dev clock fp c w ts,
    )

    -- After every run from a new machine, which is the one that a tally of the device's frames sees,
    -- the exported frame counter is the number of frames that the device has delivered, and the
    -- exported byte counter the sum of their bytes, both modulo 2^64, whatever the device has answered
    -- in between.
    pub plain_run-IsTallied :
        (plain_run ≡ view untallied tallied_run)
        × (plain_run.stats.frames_received ≡ tallied_run.world.frames % 18_446_744_073_709_551_616)
        × (plain_run.stats.bytes_received ≡ tallied_run.world.bytes % 18_446_744_073_709_551_616)
    plain_run-IsTallied =
        let same =
          run-make-view untallied (tally dev) dev (tally_clock clock) clock fp tally-Mirrors c
            (record { inner = w; frames = 0; bytes = 0 }) ts in
        let t = run-make-IsTallied dev clock fp c w ts in
        (
          same,
          ap (λ m. m.stats.frames_received) same ∙ t.frames,
          ap (λ m. m.stats.bytes_received) same ∙ t.bytes,
        )
