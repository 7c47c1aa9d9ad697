-- ===== src/Machine/Counters.antt =====
-- The exported counters of src/capture_state_machine.cpp against its events.
use hamstercam.Base.{
  ℕ, suc, ◌%◌, ◌≡◌, refl, Bool, true, false, List, [], ◌∷◌, if◌then◌else◌, add_u64, arith,
}
use hamstercam.Double.{Double}
use hamstercam.Device.{Device, Clock}
use hamstercam.Event.{
  Event, EventType, stall_detected, reconnecting, plain_event, format_event, change_event,
}
use hamstercam.Stats.{new_stats}
use hamstercam.Machine.State.{DaemonConfig, Machine, enter}
use hamstercam.Machine.{make, step, run}
use hamstercam.Machine.Resting.{IsResting, make-IsResting, step-IsResting}
use hamstercam.Machine.Transitions.{
  Move, stay, open_move, first_stream_move, reconnect_move, release_move, resume_move,
  resume_changed_move, lose_move,
}
use hamstercam.Machine.Moves.{step-Move}

abbrev is_stall : EventType → Bool
is_stall stall_detected = true
is_stall _ = false

abbrev is_reconnect : EventType → Bool
is_reconnect reconnecting = true
is_reconnect _ = false

-- How many events are of the kinds that `p` picks.
abbrev pub count : (EventType → Bool) → List Event → ℕ
count p [] = 0
count p (e ∷ es) = if p e.type then suc (count p es) else count p es

pub record IsCounted {W F : Type 0} (m : Machine W F) : Type 0 where
  pub stalls : m.stats.stalls ≡ count is_stall m.events % 18_446_744_073_709_551_616
  pub reconnects : m.stats.reconnects ≡ count is_reconnect m.events % 18_446_744_073_709_551_616

Move-IsCounted : {W F : Type 0} {m n : Machine W F} → Move m n → IsCounted m → IsCounted n
unfolding plain_event format_event change_event add_u64
Move-IsCounted (stay a b c d x y) v = record {
  stalls = rw (x, d) v.stalls;
  reconnects = rw (y, d) v.reconnects;
}
Move-IsCounted (open_move a b c d e x y) v = record {
  stalls = rw (x, e) v.stalls;
  reconnects = rw (y, e) v.reconnects;
}
Move-IsCounted (first_stream_move a b c d e f x y) v = record {
  stalls = rw (x, f) v.stalls;
  reconnects = rw (y, f) v.reconnects;
}
Move-IsCounted (reconnect_move a b c d e f x y) v = record {
  stalls = rw (x, f) v.stalls;
  reconnects = rw (y, f) (omega (arith, v.reconnects));
}
Move-IsCounted (release_move a b c d e x y) v = record {
  stalls = rw (x, e) (omega (arith, v.stalls));
  reconnects = rw (y, e) v.reconnects;
}
Move-IsCounted (resume_move a b c d e f x y) v = record {
  stalls = rw (x, f) v.stalls;
  reconnects = rw (y, f) v.reconnects;
}
Move-IsCounted (resume_changed_move a b c d e f x y) v = record {
  stalls = rw (x, f) v.stalls;
  reconnects = rw (y, f) v.reconnects;
}
Move-IsCounted (lose_move a b c d x y) v = record {
  stalls = rw (x, d) v.stalls;
  reconnects = rw (y, d) v.reconnects;
}

module _ {W F : Type 0} (dev : Device W) (clock : Clock W) (fp : Double F) where
  run-IsCounted :
      (ts : List ℕ) (m : Machine W F)
      → IsResting m
      → IsCounted m
      → IsCounted (run dev clock fp ts m)
  unfolding run
  run-IsCounted [] m v l = l
  run-IsCounted (t ∷ ts) m v l =
      run-IsCounted ts (step dev clock fp t m).0 (step-IsResting dev clock fp t m v)
        (Move-IsCounted (step-Move dev clock fp t m v.recovering_awaits) l)

  make-IsCounted : (c : DaemonConfig) (w : W) → IsCounted (make dev clock fp c w)
  unfolding make enter new_stats
  make-IsCounted c w = record { stalls = refl; reconnects = refl }

  -- After any run from the start, the exported number of stalls is the number of `stall_detected`
  -- events, and that of reconnections the number of `reconnecting` events, modulo 2 ^ 64.
  pub run-make-IsCounted :
      (c : DaemonConfig) (w : W) (ts : List ℕ)
      → IsCounted (run dev clock fp ts (make dev clock fp c w))
  run-make-IsCounted c w ts =
      run-IsCounted ts (make dev clock fp c w) (make-IsResting dev clock fp c w)
        (make-IsCounted c w)
