-- ===== src/Exporter/Help.antt =====
-- `--help` of src/exporter_main.cpp.
use hamstercam.Base.{
  ◌≡◌, refl, true, ◌⊎◌, inl, inr, Option, List, [], ◌∷◌, ◌++◌, Bytes, bytes_eq, codes, arith,
}
use hamstercam.Exporter.{exit_of, usage, wants_help, configure}

wants_help-append :
    (before after : List Bytes) (flag : Bytes)
    → (flag ≡ codes "--help") ⊎ (flag ≡ codes "-h")
    → wants_help (before ++ flag ∷ after) ≡ true
unfolding wants_help bytes_eq
wants_help-append [] after flag (inl e) = rw e refl
wants_help-append [] after flag (inr e) = rw e refl
wants_help-append (a ∷ before) after flag h = ground (arith, wants_help-append before after flag h)

-- `--help` or `-h` at any place ends the exporter with status 0, the usage text on the standard output
-- and nothing on the standard error, whatever other arguments are there, unknown flags and missing
-- values included.
pub configure-help :
    (getenv : Bytes → Option Bytes) (before after : List Bytes) (flag : Bytes)
    → (flag ≡ codes "--help") ⊎ (flag ≡ codes "-h")
    → exit_of (configure getenv (before ++ flag ∷ after))
      ≡ record { status = 0; out = usage; err = [] }
unfolding configure exit_of
configure-help getenv before after flag h = rw (wants_help-append before after flag h)
