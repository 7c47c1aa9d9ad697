-- ===== src/Machine/Recovery.antt =====
-- How src/capture_state_machine.cpp gets to stream, and two situations in which it does not do what
-- it means to.
use hamstercam.Base.{
  ℕ, ◌≤◌, ◌≡◌, ◌≢◌, refl, ap, sym, ◌∙◌, subst, ◌⊎◌, inl, inr, true, false, List, [], ◌∷◌, arith,
}
use hamstercam.Double.{Double}
use hamstercam.Device.{StreamFormat, Device, Clock, opened, FormatResult, known, started}
use hamstercam.Device.Time.{IsMonotone}
use hamstercam.Event.{EventType, plain_event, format_event}
use hamstercam.Stats.{CaptureState, device_absent, awaiting_producer, streaming, ErrorReason}
use hamstercam.Stats
use hamstercam.Machine.State.{Machine, enter, emit, record_error, reset_backoffs, retry_format}
use hamstercam.Machine.Actions.{enter_configuring}
use hamstercam.Machine.Release.{IsReleased}
use hamstercam.Machine.Transitions.{
  Move, stay, open_move, first_stream_move, reconnect_move, release_move, resume_move,
  resume_changed_move, lose_move,
}
use hamstercam.Machine.Moves.{step-Move}
use hamstercam.Machine.{
  device_opened, producer_queried, probe_queried, probe_opened, step_device_absent,
  step_awaiting_producer, step_recovering, step_in, step, run,
}

-- A device that is there, with a producer that writes in the format `f`.
pub record IsReady {W : Type 0} (dev : Device W) (f : StreamFormat) : Type 0 where
  pub opens : (w : W) → (dev.open_device w).0 ≡ opened
  pub answers : (w : W) → (dev.query_format w).0 ≡ known f
  pub starts : (n : ℕ) (w : W) → (dev.start_streaming n w).0 ≡ started

released-Move :
    {W F : Type 0} {m n : Machine W F}
    → Move m n
    → IsReleased m
    → IsReleased n
    → n.events ≡ m.events
released-Move (stay a b c d x y) r s = d
released-Move (open_move a b c d e x y) r s = absurd (ground arith)
released-Move (first_stream_move a b c d e f x y) r s = absurd (ground arith)
released-Move (reconnect_move a b c d e f x y) r s = absurd (ground arith)
released-Move (release_move a b c d e x y) r s = absurd (ground arith)
released-Move (resume_move a b c d e f x y) r s = absurd (ground arith)
released-Move (resume_changed_move a b c d e f x y) r s = absurd (ground arith)
released-Move (lose_move a b c d x y) r s = absurd (ground arith)

resumed-Move :
    {W F : Type 0} {m n : Machine W F}
    → Move m n
    → IsReleased m
    → n.state ≡ streaming
    → n.current_format ≡ m.current_format
    → n.events
      ≡ format_event EventType.streaming_started n.current_format
        ∷ plain_event EventType.stall_cleared
        ∷ m.events
resumed-Move (stay a b c d x y) r s g = absurd (ground arith)
resumed-Move (open_move a b c d e x y) r s g = absurd (ground arith)
resumed-Move (first_stream_move a b c d e f x y) r s g = absurd (ground arith)
resumed-Move (reconnect_move a b c d e f x y) r s g = absurd (ground arith)
resumed-Move (release_move a b c d e x y) r s g = absurd (ground arith)
resumed-Move (resume_move a b c d e f x y) r s g = f
resumed-Move (resume_changed_move a b c d e f x y) r s g = absurd (e g)
resumed-Move (lose_move a b c d x y) r s g = absurd (ground arith)

module _ {W F : Type 0} (dev : Device W) (clock : Clock W) (fp : Double F) where
  -- With a device that is ready, an attempt that is due makes a recovering machine stream in one
  -- step, in the format of the producer, which it exports.
  pub step-recovers :
      (f : StreamFormat) (t : ℕ) (m : Machine W F)
      → IsReady dev f
      → IsReleased m
      → m.next_attempt_at ≤ (clock.steady_now m.world).0
      → let n = (step dev clock fp t m).0 in
        (n.state ≡ streaming)
        × (n.recovering ≡ false)
        × (n.current_format ≡ f)
        × (n.stats.stream_info_known ≡ true)
        × (n.stats.stream_info_format ≡ f)
  unfolding step step_in step_recovering probe_opened probe_queried enter_configuring emit enter
      reset_backoffs Stats.set_stream_info
  step-recovers f t m ready rel due =
      let (now, w) = clock.steady_now m.world in
      let v = (dev.open_device w).1 in
      let u = (dev.query_format v).1 in
      ground (arith, ready.opens w, ready.answers v, ready.starts m.config.buffer_count u)

  -- The same for a machine whose device is open and that waits for its first producer, or for one
  -- that lost its device.
  pub step-configures :
      (f : StreamFormat) (t : ℕ) (m : Machine W F)
      → IsReady dev f
      → m.state ≡ awaiting_producer
      → m.recovering ≡ false
      → m.next_attempt_at ≤ (clock.steady_now m.world).0
      → let n = (step dev clock fp t m).0 in
        (n.state ≡ streaming)
        × (n.recovering ≡ false)
        × (n.current_format ≡ f)
        × (n.stats.stream_info_known ≡ true)
        × (n.stats.stream_info_format ≡ f)
  unfolding step step_in step_awaiting_producer producer_queried enter_configuring emit enter
      reset_backoffs Stats.set_stream_info
  step-configures f t m ready s r due =
      let (now, w) = clock.steady_now m.world in
      let u = (dev.query_format w).1 in
      ground (arith, ready.answers w, ready.starts m.config.buffer_count u)

  step-opens :
      (t : ℕ) (m : Machine W F)
      → (dev.open_device (clock.steady_now m.world).1).0 ≡ opened
      → m.state ≡ device_absent
      → m.recovering ≡ false
      → m.next_attempt_at ≤ (clock.steady_now m.world).0
      → let n = (step dev clock fp t m).0 in
        (n.state ≡ awaiting_producer)
        × (n.recovering ≡ false)
        × (n.next_attempt_at ≡ m.next_attempt_at)
        × (n.world ≡ (dev.open_device (clock.steady_now m.world).1).1)
  unfolding step step_in step_device_absent device_opened emit enter reset_backoffs
  step-opens t m o s r due = ground arith

  -- If the clock never goes back and the device is ready, a machine without a device streams two
  -- steps after its next attempt is due: one opens the device, the other configures it.
  pub two_steps-stream :
      (f : StreamFormat) (t u : ℕ) (m : Machine W F)
      → IsMonotone dev clock
      → IsReady dev f
      → m.state ≡ device_absent
      → m.recovering ≡ false
      → m.next_attempt_at ≤ (clock.steady_now m.world).0
      → let n = run dev clock fp (t ∷ u ∷ []) m in (n.state ≡ streaming) × (n.current_format ≡ f)
  unfolding run
  two_steps-stream f t u m laws ready s r due =
      let (now, w) = clock.steady_now m.world in
      let n = (step dev clock fp t m).0 in
      let o = step-opens t m (ready.opens w) s r due in
      let due' : n.next_attempt_at ≤ (clock.steady_now n.world).0 = omega (
        arith,
        o.2,
        due,
        laws.now_eq m.world,
        laws.open_le w,
        ap laws.time o.3,
        laws.now_le n.world,
      ) in
      let c = step-configures f u n ready o.0 o.1 due' in (c.0, c.2)

  -- A change of format is lost if streaming fails to start on it once: the machine then streams in
  -- a format other than the one it streamed in before the stall, and its events say that the stall
  -- is over and streaming started, with no `format_changed`.
  pub format_change_lost :
      (t u : ℕ) (m n k : Machine W F)
      → n ≡ (step dev clock fp t m).0
      → k ≡ (step dev clock fp u n).0
      → IsReleased m
      → IsReleased n
      → n.current_format ≢ m.current_format
      → k.state ≡ streaming
      → k.current_format ≡ n.current_format
      → (k.current_format ≢ m.current_format)
        × (k.events
            ≡ format_event EventType.streaming_started k.current_format
              ∷ plain_event EventType.stall_cleared
              ∷ m.events)
  format_change_lost t u m n k en ek rel rel' changed s same =
      let first = subst (Move m) (sym en) (step-Move dev clock fp t m (λ _. rel.0)) in
      let second = subst (Move n) (sym ek) (step-Move dev clock fp u n (λ _. rel'.0)) in
      (
        λ e. changed (sym same ∙ e),
        subst
            (λ es.
              k.events
              ≡ format_event EventType.streaming_started k.current_format
                ∷ plain_event EventType.stall_cleared
                ∷ es)
            (released-Move first rel rel') (resumed-Move second rel' s same),
      )

  step-stuck :
      (t : ℕ) (m : Machine W F)
      → ((w : W) → (dev.query_format w).0 ≡ FormatResult.error)
      → m.state ≡ awaiting_producer
      → m.recovering ≡ false
      → let n = (step dev clock fp t m).0 in
        let (now, w) = clock.steady_now m.world in
        (n.state ≡ awaiting_producer)
        × (n.recovering ≡ false)
        × (n.events ≡ m.events)
        × ((n.world ≡ w) ⊎ (n.world ≡ (dev.query_format w).1))
  unfolding step step_in step_awaiting_producer producer_queried retry_format record_error
  step-stuck t m gone s r = ground (arith, gone (clock.steady_now m.world).1)

  -- A device that goes away while the machine waits for a producer is never given up: as long as
  -- every query fails, the machine stays in `awaiting_producer` and reports nothing, and makes no
  -- call but readings of the clock and queries of the format, so that whatever these keep is kept,
  -- an open descriptor for one.
  pub run-stuck :
      (P : W → Type 0) (ts : List ℕ) (m : Machine W F)
      → ((w : W) → P w → P (clock.steady_now w).1)
      → ((w : W) → P w → P (dev.query_format w).1)
      → ((w : W) → (dev.query_format w).0 ≡ FormatResult.error)
      → m.state ≡ awaiting_producer
      → m.recovering ≡ false
      → P m.world
      → let n = run dev clock fp ts m in
        (n.state ≡ awaiting_producer) × (n.recovering ≡ false) × (n.events ≡ m.events) × P n.world
  unfolding run
  run-stuck P [] m read asked gone s r h = (s, r, refl, h)
  run-stuck P (t ∷ ts) m read asked gone s r h =
      let (a, b, c, d) = step-stuck t m gone s r in
      let w = (clock.steady_now m.world).1 in
      let h' : P (step dev clock fp t m).0.world = elim d [
        | inl e ↦ subst P (sym e) (read m.world h)
        | inr e ↦ subst P (sym e) (asked w (read m.world h))
      ] in
      let (a', b', c', d') = run-stuck P ts (step dev clock fp t m).0 read asked gone a b h' in
      (a', b', c' ∙ c, d')
