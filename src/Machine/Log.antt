-- ===== src/Machine/Log.antt =====
-- The order of the events that src/capture_state_machine.cpp emits, as a grammar of logs.
use hamstercam.Base.{ℕ, ◌≡◌, subst, ◌≢◌, Bool, true, false, List, [], ◌∷◌, inl, inr, arith}
use hamstercam.Double.{Double}
use hamstercam.Device.{StreamFormat, Device, Clock}
use hamstercam.Event.{Event, EventType, plain_event, format_event, change_event}
use hamstercam.Stats.{
  CaptureState, device_absent, awaiting_producer, configuring, streaming, stalled,
}
use hamstercam.Machine.State.{DaemonConfig, Machine, enter}
use hamstercam.Machine.{make, step, run}
use hamstercam.Machine.Resting.{IsResting, make-IsResting, step-IsResting}
use hamstercam.Machine.Transitions.{
  Move, stay, open_move, first_stream_move, reconnect_move, release_move, resume_move,
  resume_changed_move, lose_move,
}
use hamstercam.Machine.Moves.{step-Move}

pub data Course : Type 0 where
  absent_course waiting flowing recovering : Course

-- `Log c s es`: the events `es`, the last one first, are a log that ends in the course `c`, and `s`
-- tells whether streaming has ever started in it.
pub data Log : Course → Bool → List Event → Type 0 where
  begin : Log absent_course false []
  open_log :
      {s : Bool} {es : List Event}
      → Log absent_course s es
      → Log waiting s
          (plain_event EventType.awaiting_producer ∷ plain_event EventType.device_opened ∷ es)
  first_stream :
      {es : List Event} (f : StreamFormat)
      → Log waiting false es
      → Log flowing true (format_event EventType.streaming_started f ∷ es)
  reconnect :
      {es : List Event}
      → Log waiting true es
      → Log flowing true (plain_event EventType.reconnecting ∷ es)
  stall :
      {s : Bool} {es : List Event}
      → Log flowing s es
      → Log recovering s (plain_event EventType.stall_detected ∷ es)
  resume :
      {s : Bool} {es : List Event} (f : StreamFormat)
      → Log recovering s es
      → Log flowing s
          (format_event EventType.streaming_started f ∷ plain_event EventType.stall_cleared ∷ es)
  resume_changed :
      {s : Bool} {es : List Event} (f g : StreamFormat)
      → f ≢ g
      → Log recovering s es
      → Log flowing s (
          format_event EventType.streaming_started f
          ∷ change_event EventType.format_changed f g
          ∷ plain_event EventType.stall_cleared
          ∷ es)
  lose_stream :
      {s : Bool} {es : List Event}
      → Log flowing s es
      → Log absent_course s (plain_event EventType.device_lost ∷ es)
  lose_recovering :
      {s : Bool} {es : List Event}
      → Log recovering s es
      → Log absent_course s (plain_event EventType.device_lost ∷ es)

abbrev pub course_of : CaptureState → Bool → Course
course_of device_absent r = absent_course
course_of awaiting_producer true = recovering
course_of awaiting_producer false = waiting
course_of configuring r = waiting
course_of streaming r = flowing
course_of stalled r = recovering

-- The events so far are a log that ends where the machine is.
abbrev pub Logged : {W F : Type 0} → Machine W F → Type 0
Logged m = Log (course_of m.state m.recovering) m.has_streamed_before m.events

-- A log of the right course, for a machine whose state and events are known by equations.
logged :
    {W F : Type 0} (n : Machine W F) {c : Course} {s : Bool} {es : List Event}
    → course_of n.state n.recovering ≡ c
    → n.has_streamed_before ≡ s
    → n.events ≡ es
    → Log c s es
    → Logged n
logged n p q r l = rw (p, q, r) l

-- The log of `m` at the course that its state and flags are known to give.
Log-at :
    {W F : Type 0} (m : Machine W F) {c : Course}
    → Logged m
    → course_of m.state m.recovering ≡ c
    → Log c m.has_streamed_before m.events
Log-at m l p = subst (λ c. Log c m.has_streamed_before m.events) p l

Move-Logged : {W F : Type 0} {m n : Machine W F} → IsResting n → Move m n → Logged m → Logged n
Move-Logged {m} {n} v (stay a b c d x y) l = logged n (ground arith) c d l
Move-Logged {m} {n} v (open_move a b c d e x y) l =
    logged n (ground arith) d e (open_log (Log-at m l (ground arith)))
Move-Logged {m} {n} v (first_stream_move a b c d e f x y) l =
    logged n (ground arith) e f
      (first_stream _ (subst (λ s. Log waiting s m.events) c (Log-at m l (ground arith))))
Move-Logged {m} {n} v (reconnect_move a b c d e f x y) l =
    logged n (ground arith) e f
      (reconnect (subst (λ s. Log waiting s m.events) c (Log-at m l (ground arith))))
Move-Logged {m} {n} v (release_move a b c d e x y) l =
    logged n (ground arith) d e (stall (Log-at m l (ground arith)))
Move-Logged {m} {n} v (resume_move a b c d e f x y) l =
    logged n (ground arith) d f (resume _ (Log-at m l (ground arith)))
Move-Logged {m} {n} v (resume_changed_move a b c d e f x y) l =
    logged n (ground arith) d f (resume_changed _ _ e (Log-at m l (ground arith)))
Move-Logged {m} {n} v (lose_move (inl a) b c d x y) l =
    logged n (ground arith) c d (lose_stream (Log-at m l (ground arith)))
Move-Logged {m} {n} v (lose_move (inr (a, r)) b c d x y) l =
    logged n (ground arith) c d (lose_recovering (Log-at m l (ground arith)))

module _ {W F : Type 0} (dev : Device W) (clock : Clock W) (fp : Double F) where
  pub step-Logged :
      (t : ℕ) (m : Machine W F) → IsResting m → Logged m → Logged (step dev clock fp t m).0
  step-Logged t m v l =
      Move-Logged (step-IsResting dev clock fp t m v)
        (step-Move dev clock fp t m v.recovering_awaits) l

  run-Logged :
      (ts : List ℕ) (m : Machine W F) → IsResting m → Logged m → Logged (run dev clock fp ts m)
  unfolding run
  run-Logged [] m v l = l
  run-Logged (t ∷ ts) m v l =
      run-Logged ts (step dev clock fp t m).0 (step-IsResting dev clock fp t m v)
        (step-Logged t m v l)

  pub make-Logged : (c : DaemonConfig) (w : W) → Logged (make dev clock fp c w)
  unfolding make enter
  make-Logged c w = begin

  -- The events of any run from the start are a log of the grammar, in the course that the state and
  -- the recovery flag give: the device is opened, then streaming starts for the first time, or is
  -- reported as a reconnection if it had ever started; a stall is cleared before streaming starts
  -- again, with a format change reported in between only if the two formats differ; and the device
  -- is lost only while streaming or recovering.
  pub run-make-Logged :
      (c : DaemonConfig) (w : W) (ts : List ℕ)
      → Logged (run dev clock fp ts (make dev clock fp c w))
  run-make-Logged c w ts =
      run-Logged ts (make dev clock fp c w) (make-IsResting dev clock fp c w) (make-Logged c w)
