-- ===== src/Json/Lines.antt =====
-- The log that src/json_logger.cpp writes for a sequence of events, read line by line.
use hamstercam.Base.{
  ℕ, zero, suc, ◌<◌, ◌≤◌, ◌≡◌, refl, ap, sym, ◌∙◌, Bool, leb, Option, none, some, List, [], ◌∷◌,
  ◌++◌, if◌then◌else◌, Bytes, codes, All, length, append_assoc, append-nil, Bool-cases, inl, inr,
  arith,
}
use hamstercam.Event.{
  Event, EventType, device_opened, awaiting_producer, streaming_started, device_lost, reconnecting,
  stall_detected, stall_cleared, format_changed,
}
use hamstercam.Json.{JsonLogger, LogLevel, level_code, level_string, finish, escape, emit}
use hamstercam.Json.Levels.{event_level, emit-below}
use hamstercam.Json.Read.{Member, open_text, IsPlain, IsClear, Fits, IsWritable, read_line}
use hamstercam.Json.Read.Texts.{read_line-text}
use hamstercam.Json.Log.{stamped, details, described, object_of, event_line-open_text}

-- The calls of the sink for events, each with the text of its time, the first event first.
abbrev pub emit_all : JsonLogger → List (Bytes × Event) → JsonLogger
emit_all logger [] = logger
emit_all logger ((now, e) ∷ es) = emit_all (emit now logger e) es

abbrev passes : LogLevel → Event → Bool
passes l e = leb (level_code l) (level_code (event_level e.type))

-- The objects of the events that are not below the level.
abbrev pub objects : LogLevel → List (Bytes × Event) → List (List Member)
objects l [] = []
objects l ((now, e) ∷ es) =
    let rest = objects l es in if passes l e then object_of now e ∷ rest else rest

-- Lines of at most `n` members each, as many lines as the other number says.
pub read_lines : ℕ → ℕ → Bytes → Option (List (List Member))
read_lines n zero [] = some []
read_lines n zero (c ∷ s) = none
read_lines n (suc k) [] = some []
read_lines n (suc k) (c ∷ s) = elim (read_line n (c ∷ s)) [
  | none ↦ none
  | some (o, rest) ↦ elim (read_lines n k rest) [ none ↦ none | some os ↦ some (o ∷ os) ]
]

abbrev lines_text : LogLevel → List (Bytes × Event) → Bytes
lines_text l [] = []
lines_text l ((now, e) ∷ es) =
    let rest = lines_text l es in
    if passes l e then open_text (stamped now) (described e.type e) ++ b'}' ∷ b'\n' ∷ rest else rest

-- The time has nothing to escape, and the details are printable texts of ASCII or machine words. Of
-- the details only pixel formats can have other texts.
pub record IsLoggable (r : Bytes × Event) : Type 0 where
  pub plain : IsPlain r.0
  pub clear_time : IsClear r.0
  pub fits : All (λ m. Fits m.1) (details r.1.type r.1)

emit-passes :
    (now : Bytes) (logger : JsonLogger) (e : Event)
    → IsPlain now
    → level_code logger.min_level ≤ level_code (event_level e.type)
    → (emit now logger e).out
      ≡ logger.out ++ (open_text (stamped now) (described e.type e) ++ codes "}\n")
unfolding emit finish
emit-passes now logger e p h = rw (event_line-open_text now logger.min_level e.type e p h) refl

emit-min_level :
    (now : Bytes) (logger : JsonLogger) (e : Event)
    → (emit now logger e).min_level ≡ logger.min_level
unfolding emit
emit-min_level now logger e = refl

emit_all-lines_text :
    (es : List (Bytes × Event)) (logger : JsonLogger)
    → All IsLoggable es
    → (emit_all logger es).out ≡ logger.out ++ lines_text logger.min_level es
emit_all-lines_text [] logger h = sym (append-nil logger.out)
emit_all-lines_text ((now, e) ∷ es) logger (h, hs) = elim (Bool-cases (passes logger.min_level e)) [
  | inl b ↦
      emit_all-lines_text es (emit now logger e) hs
      ∙ rw (b, emit-min_level now logger e, emit-passes now logger e h.plain (ground arith))
          (simp append_assoc)
  | inr b ↦ rw b (
      ap (λ g. (emit_all g es).out) (emit-below now logger e (ground arith))
      ∙ emit_all-lines_text es logger hs)
]

described-IsWritable :
    (e : Event) (t : EventType) → All (λ m. Fits m.1) (details t e) → All IsWritable (described t e)
unfolding escape level_string
described-IsWritable e device_opened h = ((refl, refl, refl), ((refl, refl, refl), tt))
described-IsWritable e awaiting_producer h = ((refl, refl, refl), ((refl, refl, refl), tt))
described-IsWritable e reconnecting h = ((refl, refl, refl), ((refl, refl, refl), tt))
described-IsWritable e stall_detected h = ((refl, refl, refl), ((refl, refl, refl), tt))
described-IsWritable e stall_cleared h = ((refl, refl, refl), ((refl, refl, refl), tt))
described-IsWritable e device_lost (r, _) =
    ((refl, refl, refl), ((refl, refl, refl), ((refl, refl, r), tt)))
described-IsWritable e streaming_started (w, (h, (p, _))) = (
  (refl, refl, refl),
  ((refl, refl, refl), ((refl, refl, w), ((refl, refl, h), ((refl, refl, p), tt)))),
)
described-IsWritable e format_changed (w, (h, (p, (w', (h', (p', _)))))) = (
  (refl, refl, refl),
  (
    (refl, refl, refl),
    (
      (refl, refl, w),
      (
        (refl, refl, h),
        ((refl, refl, p), ((refl, refl, w'), ((refl, refl, h'), ((refl, refl, p'), tt)))),
      ),
    ),
  ),
)

length-described : (e : Event) (t : EventType) → length (described t e) < 9
length-described e device_opened = omega arith
length-described e awaiting_producer = omega arith
length-described e reconnecting = omega arith
length-described e stall_detected = omega arith
length-described e stall_cleared = omega arith
length-described e device_lost = omega arith
length-described e streaming_started = omega arith
length-described e format_changed = omega arith

read_lines-lines_text :
    (es : List (Bytes × Event)) (l : LogLevel) (k : ℕ)
    → length es ≤ k
    → All IsLoggable es
    → read_lines 9 k (lines_text l es) ≡ some (objects l es)
unfolding read_lines escape
read_lines-lines_text [] l zero le h = refl
read_lines-lines_text [] l (suc k) le h = refl
read_lines-lines_text ((now, e) ∷ es) l zero le h = absurd (omega arith)
read_lines-lines_text ((now, e) ∷ es) l (suc k) le (h, hs) = elim (Bool-cases (passes l e)) [
  | inl b ↦
      rw
        (
          b,
          read_line-text (described e.type e) (stamped now) 9 (lines_text l es)
              (length-described e e.type) (refl, refl, h.clear_time)
              (described-IsWritable e e.type h.fits),
          read_lines,
          read_lines-lines_text es l k (omega arith) hs,
        )
        refl
  | inr b ↦ rw b (read_lines-lines_text es l (suc k) (omega arith) hs)
]

-- The log that the sink writes for any events, read by a strict reader of JSON lines, is one object on a
-- line of its own for each event that is not below the minimum level, in their order, with the time,
-- the level, the name and the details of the event, if the times have nothing to escape, the times
-- and the pixel formats are printable ASCII and the sizes are machine words.
pub read_lines-emit_all :
    (es : List (Bytes × Event)) (l : LogLevel)
    → All IsLoggable es
    → read_lines 9 (length es) (emit_all (record { out = []; min_level = l }) es).out
      ≡ some (objects l es)
read_lines-emit_all es l h =
    ap (read_lines 9 (length es)) (emit_all-lines_text es (record { out = []; min_level = l }) h)
    ∙ read_lines-lines_text es l (length es) (omega arith) h
