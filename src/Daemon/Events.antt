-- ===== src/Daemon/Events.antt =====
-- The events of the main loop of src/main.cpp, and how its sink writes them.
use hamstercam.Base.{
  ℕ, zero, suc, ◌≡◌, refl, ap, sym, ◌∙◌, Bool, none, some, List, [], ◌∷◌, ◌++◌, Bytes, append-nil,
  append_assoc, if_cases,
}
use hamstercam.Double.{Double}
use hamstercam.Device.{Device, Clock}
use hamstercam.Event.{Event}
use hamstercam.Json.{JsonLogger, Line, finish, emit, event_line}
use hamstercam.Json.Lines.{emit_all}
use hamstercam.Machine.State.{Machine}
use hamstercam.Machine.{step}
use hamstercam.Machine.Resting.{IsResting, step-IsResting}
use hamstercam.Machine.Log.{Logged, step-Logged}
use hamstercam.Daemon.{main_loop, interruptible_sleep}
use hamstercam.Daemon.Main.{events_logged}

pub finish-append : (out : Bytes) (l : Line) → finish out l ≡ out ++ finish [] l
unfolding finish
finish-append out none = sym (append-nil out)
finish-append out (some buf) = refl

-- A logger that has written nothing, at the same level.
abbrev pub blank : JsonLogger → JsonLogger
blank a = record a { out = [] }

emit-out :
    (now : Bytes) (a : JsonLogger) (e : Event)
    → (emit now a e).out ≡ a.out ++ (emit now (blank a) e).out
unfolding emit
emit-out now a e = finish-append a.out (event_line now a.min_level e.type e)

emit-level : (now : Bytes) (a : JsonLogger) (e : Event) → (emit now a e).min_level ≡ a.min_level
unfolding emit
emit-level now a e = refl

-- What was written before stays in front of what the sink writes.
pub emit_all-out :
    (es : List (Bytes × Event)) (a : JsonLogger)
    → (emit_all a es).out ≡ a.out ++ (emit_all (blank a) es).out
unfolding emit
emit_all-out [] a = sym (append-nil a.out)
emit_all-out ((now, e) ∷ es) a =
    let b = emit now a e in
    let c = emit now (blank a) e in
    emit_all-out es b
    ∙ ap (λ o. o ++ (emit_all (blank a) es).out) (emit-out now a e)
    ∙ append_assoc a.out c.out (emit_all (blank a) es).out
    ∙ ap (λ o. a.out ++ o) (sym (emit_all-out es c))

pub emit_all-level :
    (es : List (Bytes × Event)) (a : JsonLogger) → (emit_all a es).min_level ≡ a.min_level
emit_all-level [] a = refl
emit_all-level ((now, e) ∷ es) a = emit_all-level es (emit now a e) ∙ emit-level now a e

emit_all-append :
    (es fs : List (Bytes × Event)) (a : JsonLogger)
    → emit_all a (es ++ fs) ≡ emit_all (emit_all a es) fs
emit_all-append [] fs a = refl
emit_all-append ((now, e) ∷ es) fs a = emit_all-append es fs (emit now a e)

-- Events, the last one first, with the times of their lines, the first one first; the times are those
-- from `i` on in the opposite order.
abbrev pub timed : (ℕ → Bytes) → ℕ → List Event → List (Bytes × Event)
timed now i [] = []
timed now i (e ∷ es) = timed now (suc i) es ++ (now i, e) ∷ []

pub events_logged-emit_all :
    (now : ℕ → Bytes) (i : ℕ) (es : List Event) (a : JsonLogger)
    → events_logged now i es a ≡ emit_all a (timed now i es)
unfolding events_logged
events_logged-emit_all now i [] a = refl
events_logged-emit_all now i (e ∷ es) a =
    ap (λ b. emit (now i) b e) (events_logged-emit_all now (suc i) es a)
    ∙ sym (emit_all-append (timed now (suc i) es) ((now i, e) ∷ []) a)

-- A machine whose events are a log of the grammar, at rest.
abbrev pub IsTold : {W F : Type 0} → Machine W F → Type 0
IsTold m = IsResting m × Logged m

pub moved-IsTold :
    {W F : Type 0} (m : Machine W F) (w : W) → IsTold m → IsTold (record m { world = w })
moved-IsTold m w (v, l) = (
  record {
    not_configuring = v.not_configuring;
    not_stalled = v.not_stalled;
    gauge = v.gauge;
    recovering_awaits = v.recovering_awaits;
    recovering_streamed = v.recovering_streamed;
    frame_streams = v.frame_streams;
    streamed = v.streamed;
  },
  l,
)

module _ {W F : Type 0} (dev : Device W) (clock : Clock W) (fp : Double F) (stop : W → Bool × W)
    (sleep : ℕ → W → W) where
  -- The events of the main loop are a log of the grammar as those of a run are.
  pub main_loop-IsTold :
      (turns : ℕ) (m : Machine W F) → IsTold m → IsTold (main_loop stop sleep dev clock fp turns m)
  unfolding main_loop
  main_loop-IsTold zero m h = h
  main_loop-IsTold (suc turns) m h =
      let m1 = record m { world = (stop m.world).1 } in
      let (v, l) = moved-IsTold m (stop m.world).1 h in
      let (n, wait) = step dev clock fp 200 m1 in
      let w = interruptible_sleep stop sleep wait n.world in
      let told : IsTold n =
        (step-IsResting dev clock fp 200 m1 v, step-Logged dev clock fp 200 m1 v l) in
      if_cases (λ (r : Machine W F). IsTold r) (stop m.world).0 m1
        (main_loop stop sleep dev clock fp turns (record n { world = w })) (λ _. (v, l))
        (λ _. main_loop-IsTold turns (record n { world = w }) (moved-IsTold n w told))
