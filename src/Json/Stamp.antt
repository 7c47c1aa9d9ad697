-- ===== src/Json/Stamp.antt =====
-- `rfc3339_now` of src/json_logger.cpp: the text of the time of a line.
use hamstercam.Base.{
  ℕ, ◌+◌, ◌-◌, ◌/◌, ◌%◌, ◌<◌, ◌≤◌, ◌≡◌, ◌≢◌, refl, ltb, Bool-cases, inl, inr, [], ◌∷◌, ◌++◌, Bytes,
  All, length, take, drop, replicate, ns_per_s, ns_per_ms, arith,
}
use hamstercam.Text.{to_string}
use hamstercam.Text.Decimal.{decimal}
use hamstercam.Text.Digits.{to_string-1, to_string-2, to_string-3, to_string-4}
use hamstercam.Json.{escape}

-- What the code takes from `std::tm`.
pub record Tm : Type 0 where
  pub tm_year : ℕ
  pub tm_mon : ℕ
  pub tm_mday : ℕ
  pub tm_hour : ℕ
  pub tm_min : ℕ
  pub tm_sec : ℕ

-- The conversion `%0<width>d` of a number that is not negative.
unfoldable pub padded : ℕ → ℕ → Bytes
padded width n = replicate (width - length (to_string n)) b'0' ++ to_string n

-- The format of `snprintf`.
unfoldable pub stamp_text : Tm → ℕ → Bytes
stamp_text tm ms =
    padded 4 (tm.tm_year + 1900)
    ++ (b'-'
        ∷ (padded 2 (tm.tm_mon + 1)
            ++ (b'-'
                ∷ (padded 2 tm.tm_mday
                    ++ (b'T'
                        ∷ (padded 2 tm.tm_hour
                            ++ (b':'
                                ∷ (padded 2 tm.tm_min
                                    ++ (b':'
                                        ∷ (padded 2 tm.tm_sec
                                            ++ (b'.' ∷ (padded 3 ms ++ b'Z' ∷ []))))))))))))

-- `gmtime` is `gmtime_r`, and `wall` the system clock in nanoseconds; the buffer holds 63 bytes and
-- the end of the text.
unfoldable pub rfc3339_now : (ℕ → Tm) → ℕ → Bytes
unfolding stamp_text
rfc3339_now gmtime wall =
    take 63 (stamp_text (gmtime (wall / ns_per_s)) ((wall / ns_per_ms) % 1000))

-- The ranges of the fields, and a year of four digits.
pub record IsCalendar (tm : Tm) : Type 0 where
  pub year : tm.tm_year + 1900 < 10_000
  pub mon : tm.tm_mon < 12
  pub mday : tm.tm_mday ≤ 31
  pub hour : tm.tm_hour < 24
  pub min : tm.tm_min < 60
  pub sec : tm.tm_sec ≤ 60

-- The fields stand at their places, 24 bytes in all, and none has to be escaped.
pub record IsStamp (tm : Tm) (ms : ℕ) (s : Bytes) : Type 0 where
  pub size : length s ≡ 24
  pub plain : escape s ≡ s
  pub year : decimal 0 (take 4 s) ≡ tm.tm_year + 1900
  pub mon : decimal 0 (take 2 (drop 5 s)) ≡ tm.tm_mon + 1
  pub mday : decimal 0 (take 2 (drop 8 s)) ≡ tm.tm_mday
  pub hour : decimal 0 (take 2 (drop 11 s)) ≡ tm.tm_hour
  pub min : decimal 0 (take 2 (drop 14 s)) ≡ tm.tm_min
  pub sec : decimal 0 (take 2 (drop 17 s)) ≡ tm.tm_sec
  pub millis : decimal 0 (take 3 (drop 20 s)) ≡ ms

padded-2 : (n : ℕ) → n < 100 → padded 2 n ≡ (b'0' + n / 10) ∷ (b'0' + n % 10) ∷ []
unfolding padded
padded-2 n h = elim (Bool-cases (ltb n 10)) [
  | inl e ↦ rw (to_string-1 n (ground arith)) (ground arith)
  | inr e ↦ rw (to_string-2 n (ground arith) h) refl
]

padded-3 :
    (n : ℕ)
    → n < 1000
    → padded 3 n ≡ (b'0' + n / 10 / 10) ∷ (b'0' + (n / 10) % 10) ∷ (b'0' + n % 10) ∷ []
unfolding padded
padded-3 n h = elim (Bool-cases (ltb n 10)) [
  | inl e ↦ rw (to_string-1 n (ground arith)) (ground arith)
  | inr e ↦ elim (Bool-cases (ltb n 100)) [
    | inl g ↦ rw (to_string-2 n (ground arith) (ground arith)) (ground arith)
    | inr g ↦ rw (to_string-3 n (ground arith) h) refl
  ]
]

padded-4 :
    (n : ℕ)
    → 1000 ≤ n
    → n < 10_000
    → padded 4 n
      ≡ (b'0' + n / 10 / 10 / 10)
        ∷ (b'0' + (n / 10 / 10) % 10)
        ∷ (b'0' + (n / 10) % 10)
        ∷ (b'0' + n % 10)
        ∷ []
unfolding padded
padded-4 n l h = rw (to_string-4 n l h) refl

abbrev IsPlainByte : ℕ → Type 0
IsPlainByte c = (c ≢ b'"') × (c ≢ b'\\')

escape-plain : (s : Bytes) → All IsPlainByte s → escape s ≡ s
unfolding escape
escape-plain [] h = refl
escape-plain (c ∷ s) h = ground (arith, h.0, escape-plain s h.1)

stamp_text-IsStamp :
    (tm : Tm) (ms : ℕ) → IsCalendar tm → ms < 1000 → IsStamp tm ms (take 63 (stamp_text tm ms))
unfolding stamp_text
stamp_text-IsStamp tm ms c h =
    rw
      (
        padded-4 (tm.tm_year + 1900) (omega arith) c.year,
        padded-2 (tm.tm_mon + 1) (omega (arith, c)),
        padded-2 tm.tm_mday (omega (arith, c)),
        padded-2 tm.tm_hour (omega (arith, c)),
        padded-2 tm.tm_min (omega (arith, c)),
        padded-2 tm.tm_sec (omega (arith, c)),
        padded-3 ms h,
      )
      (record {
        size = refl;
        plain = escape-plain _ (omega arith);
        year = omega arith;
        mon = omega arith;
        mday = omega arith;
        hour = omega arith;
        min = omega arith;
        sec = omega arith;
        millis = omega arith;
      })

-- For a calendar with a year of four digits, the text of the time has 24 bytes, none of which is
-- cut off or would have to be escaped, and the calendar's fields and the milliseconds of the system
-- clock are read back at their places.
pub rfc3339_now-IsStamp :
    (gmtime : ℕ → Tm) (wall : ℕ)
    → IsCalendar (gmtime (wall / ns_per_s))
    → IsStamp (gmtime (wall / ns_per_s)) ((wall / ns_per_ms) % 1000) (rfc3339_now gmtime wall)
unfolding rfc3339_now
rfc3339_now-IsStamp gmtime wall c =
    stamp_text-IsStamp (gmtime (wall / ns_per_s)) ((wall / ns_per_ms) % 1000) c (omega arith)
