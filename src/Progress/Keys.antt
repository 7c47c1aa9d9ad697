-- ===== src/Progress/Keys.antt =====
-- What `ProgressParser::parse_line` of src/progress_parser.cpp changes.
use hamstercam.Base.{
  ℕ, ◌/◌, ◌≡◌, refl, ap, sym, ◌∙◌, true, false, Option, none, some, [], ◌∷◌, ◌++◌, Bytes, bytes_eq,
  codes, ns_per_s, if◌then◌else◌, arith,
}
use hamstercam.Double.{Double}
use hamstercam.Device.{Clock}
use hamstercam.Text.{split_at, strip_last}
use hamstercam.Text.Split.{Lacks, split_at-append, split_at-none}
use hamstercam.Progress.{
  ProgressParser, ProducerStats, parse_u64, parse_measure, stamp, store_key, parse_pair, parse_line,
}

-- The new value of a field that a text sets if it can be read.
abbrev pub read_or {ℓ} : {A : Type ℓ} → Option A → A → A
read_or none old = old
read_or (some v) old = v

pub bytes_eq_refl : (s : Bytes) → bytes_eq s s ≡ true
unfolding bytes_eq
bytes_eq_refl [] = refl
bytes_eq_refl (c ∷ s) = ground (arith, bytes_eq_refl s)

pub bytes_eq_sound : (s t : Bytes) → bytes_eq s t ≡ true → s ≡ t
unfolding bytes_eq
bytes_eq_sound [] [] e = refl
bytes_eq_sound (c ∷ s) (d ∷ t) e = ground (arith, bytes_eq_sound s t)
bytes_eq_sound [] (d ∷ t) e = cc
bytes_eq_sound (c ∷ s) [] e = cc

-- The value of a field that one key sets, if the text can be read.
abbrev pub set_by {ℓ} : {A : Type ℓ} → Bytes → Bytes → Option A → A → A
set_by key name new old = if bytes_eq key name then read_or new old else old

module _ {F : Type 0} (fp : Double F) where
  -- The statistics `t` that a pair of key and value leaves of `s`, field by field.
  pub record Stored (key value : Bytes) (wall : ℕ) (s t : ProducerStats F) : Type 0 where
    pub frames : t.frames_total ≡ set_by key (codes "frame") (parse_u64 value) s.frames_total
    pub fps : t.fps ≡ set_by key (codes "fps") (parse_measure fp value) s.fps
    pub dropped :
        t.dropped_frames_total
        ≡ set_by key (codes "drop_frames") (parse_u64 value) s.dropped_frames_total
    pub duplicated :
        t.duplicated_frames_total
        ≡ set_by key (codes "dup_frames") (parse_u64 value) s.duplicated_frames_total
    pub speed :
        t.speed_ratio
        ≡ set_by key (codes "speed") (parse_measure fp (strip_last b'x' value)) s.speed_ratio
    pub connected : t.connected ≡ s.connected
    pub updated :
        t.last_update_unixtime
        ≡ set_by key (codes "progress") (some (wall / ns_per_s)) s.last_update_unixtime

-- A key is at most one of two different names.
one_name : (key a b : Bytes) → bytes_eq a b ≡ false → bytes_eq key a ≡ true → bytes_eq key b ≡ false
one_name key a b d e = rw (bytes_eq_sound key a e) d

strip_last-append : (c : ℕ) (s : Bytes) → strip_last c (s ++ c ∷ []) ≡ s
unfolding strip_last
strip_last-append c [] = ground arith
strip_last-append c (x ∷ []) = ground arith
strip_last-append c (x ∷ y ∷ s) = ap (λ t. x ∷ t) (strip_last-append c (y ∷ s))

strip_last-none : (c : ℕ) (s : Bytes) → Lacks c s → strip_last c s ≡ s
unfolding strip_last
strip_last-none c [] h = refl
strip_last-none c (x ∷ []) h = ground arith
strip_last-none c (x ∷ y ∷ s) h = ap (λ t. x ∷ t) (strip_last-none c (y ∷ s) h.1)

module _ {W F : Type 0} (clock : Clock W) (fp : Double F) where
  store_key-Stored :
      (key value : Bytes) (p : ProgressParser W F)
      → Stored fp key value
          (clock.wall_now p.world).0
          p.stats
          (store_key clock fp key value p).stats
  unfolding store_key stamp
  store_key-Stored key value p = record {
    frames = ground arith;
    fps = ground (arith, one_name key (codes "frame") (codes "fps") (unfold bytes_eq in refl));
    dropped = ground (
      arith,
      one_name key (codes "frame") (codes "drop_frames") (unfold bytes_eq in refl),
      one_name key (codes "fps") (codes "drop_frames") (unfold bytes_eq in refl),
    );
    duplicated = ground (
      arith,
      one_name key (codes "frame") (codes "dup_frames") (unfold bytes_eq in refl),
      one_name key (codes "fps") (codes "dup_frames") (unfold bytes_eq in refl),
      one_name key (codes "drop_frames") (codes "dup_frames") (unfold bytes_eq in refl),
    );
    speed = ground (
      arith,
      one_name key (codes "frame") (codes "speed") (unfold bytes_eq in refl),
      one_name key (codes "fps") (codes "speed") (unfold bytes_eq in refl),
      one_name key (codes "drop_frames") (codes "speed") (unfold bytes_eq in refl),
      one_name key (codes "dup_frames") (codes "speed") (unfold bytes_eq in refl),
    );
    connected = ground arith;
    updated = ground (
      arith,
      one_name key (codes "frame") (codes "progress") (unfold bytes_eq in refl),
      one_name key (codes "fps") (codes "progress") (unfold bytes_eq in refl),
      one_name key (codes "drop_frames") (codes "progress") (unfold bytes_eq in refl),
      one_name key (codes "dup_frames") (codes "progress") (unfold bytes_eq in refl),
      one_name key (codes "speed") (codes "progress") (unfold bytes_eq in refl),
    );
  }

  -- A line `key=value`, with a carriage return at its end or without, whose key has no `=`: each of
  -- the six known keys sets its own field, if the value can be read, and no key sets another field.
  pub parse_line-Stored :
      (key value : Bytes) (p : ProgressParser W F)
      → Lacks b'=' key
      → Lacks b'\r' (key ++ b'=' ∷ value)
      → let line = key ++ b'=' ∷ value in
        Stored fp key value (clock.wall_now p.world).0 p.stats (parse_line clock fp line p).stats
        × (parse_line clock fp (line ++ b'\r' ∷ []) p ≡ parse_line clock fp line p)
  unfolding parse_line parse_pair
  parse_line-Stored key value p eq cr =
      let line = key ++ b'=' ∷ value in
      let bare : strip_last b'\r' line ≡ line = strip_last-none b'\r' line cr in
      (
        rw (bare, split_at-append b'=' key value eq, parse_pair) (store_key-Stored key value p),
        ap (λ l. parse_pair clock fp (split_at b'=' l) p) (strip_last-append b'\r' line ∙ sym bare),
      )

  -- A line with no `=`, but for a carriage return at its end, leaves the parser as it is.
  pub parse_line-ignored :
      (s : Bytes) (p : ProgressParser W F)
      → Lacks b'=' (strip_last b'\r' s)
      → parse_line clock fp s p ≡ p
  unfolding parse_line parse_pair
  parse_line-ignored s p h = rw (split_at-none b'=' (strip_last b'\r' s) h, parse_pair)
