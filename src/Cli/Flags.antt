-- ===== src/Cli/Flags.antt =====
-- `parse_flags` and `resolve` of src/main.cpp: what a command line sets, and where a setting comes
-- from.
use hamstercam.Base.{
  ◌≡◌, refl, ◌∙◌, true, false, Option, none, some, List, [], ◌∷◌, ◌++◌, Bytes, bytes_eq,
  if◌then◌else◌, All, arith,
}
use hamstercam.Text.Split.{Lacks, split_at-append, split_at-none}
use hamstercam.Progress.Keys.{bytes_eq_refl, bytes_eq_sound}
use hamstercam.Cli.{Flags, assign, find, contains, ok, parse_flags, resolve}

-- One setting as it is written: `name=value`, or `name value`.
pub data Setting : Type 0 where
  joined apart : Bytes → Bytes → Setting

abbrev pub written : List Setting → List Bytes
written [] = []
written (joined n v ∷ ss) = (n ++ b'=' ∷ v) ∷ written ss
written (apart n v ∷ ss) = n ∷ v ∷ written ss

abbrev pub assigned : List Setting → Flags → Flags
assigned [] out = out
assigned (joined n v ∷ ss) out = assigned ss (assign n v out)
assigned (apart n v ∷ ss) out = assigned ss (assign n v out)

abbrev pub name_of : Setting → Bytes
name_of (joined n v) = n
name_of (apart n v) = n

-- The name is known, and has no `=`.
abbrev pub IsKnown : List Bytes → Setting → Type 0
IsKnown known s = (contains known (name_of s) ≡ true) × Lacks b'=' (name_of s)

parse_flags-joined :
    (known : List Bytes) (n v : Bytes) (args : List Bytes) (out : Flags)
    → Lacks b'=' n
    → contains known n ≡ true
    → parse_flags known ((n ++ b'=' ∷ v) ∷ args) out ≡ parse_flags known args (assign n v out)
unfolding parse_flags
parse_flags-joined known n v [] out l k =
    rw (split_at-append b'=' n v l, parse_flags) (ground arith)
parse_flags-joined known n v (a ∷ args) out l k =
    rw (split_at-append b'=' n v l, parse_flags) (ground arith)

parse_flags-apart :
    (known : List Bytes) (n v : Bytes) (args : List Bytes) (out : Flags)
    → Lacks b'=' n
    → contains known n ≡ true
    → parse_flags known (n ∷ v ∷ args) out ≡ parse_flags known args (assign n v out)
unfolding parse_flags
parse_flags-apart known n v args out l k = rw (split_at-none b'=' n l, parse_flags) (ground arith)

-- Every list of settings with known names, which have no `=`, is accepted in either notation, and
-- each setting overwrites the earlier ones of its name.
pub parse_flags-written :
    (known : List Bytes) (ss : List Setting) (out : Flags)
    → All (IsKnown known) ss
    → parse_flags known (written ss) out ≡ ok (assigned ss out)
parse_flags-written known [] out h = unfold parse_flags in refl
parse_flags-written known (joined n v ∷ ss) out ((k, l), h) =
    parse_flags-joined known n v (written ss) out l k
    ∙ parse_flags-written known ss (assign n v out) h
parse_flags-written known (apart n v ∷ ss) out ((k, l), h) =
    parse_flags-apart known n v (written ss) out l k
    ∙ parse_flags-written known ss (assign n v out) h

find-assign :
    (k j v : Bytes) (m : Flags)
    → find j (assign k v m) ≡ (if bytes_eq k j then some v else find j m)
unfolding find assign
find-assign k j v [] = refl
find-assign k j v ((i, w) ∷ m) =
    ground (arith, bytes_eq_sound i k, bytes_eq_sound i j, bytes_eq_sound k j, find-assign k j v m)

-- A flag that was set last to `v` resolves to `v`, whatever the environment says; another flag that
-- is not set resolves to the environment's value, or to the default where there is none.
pub resolve-assign :
    (getenv : Bytes → Option Bytes) (flags : Flags) (name other env fallback v : Bytes)
    → find other flags ≡ none
    → bytes_eq name other ≡ false
    → (resolve getenv (assign name v flags) name env fallback ≡ v)
      × (resolve getenv (assign name v flags) other env fallback
          ≡ elim (getenv env) [ some e ↦ e | none ↦ fallback ])
unfolding resolve
resolve-assign getenv flags name other env fallback v f d = (
  rw (find-assign name name v flags, bytes_eq_refl name, resolve),
  rw (find-assign name other v flags, d, f, resolve),
)
