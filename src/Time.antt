-- ===== src/Time.antt =====
-- The text of a time in the database: `t.UTC().Format(time.RFC3339Nano)`. A time is its
-- nanoseconds since 1970; its year is at most 9999.
pub mod Order
use Prim.Native.Char.{code}
use Prim.Native.String
use artifact_registry_servic.Base.{
  ℕ, zero, suc, ◌+◌, ◌-◌, ◌*◌, ◌/◌, ◌%◌, String, ◌<>◌, Bool, true, ◌&&◌, eqb, leb, digit_text,
  if◌then◌else◌,
}

-- The last `w` decimal digits.
unfoldable pub fixed : ℕ → ℕ → String
unfolding digit_text
fixed zero n = ""
fixed (suc w) n = fixed w (n / 10) <> digit_text (n % 10)

unfoldable pub all_zeros : String → Bool
all_zeros String.[] = true
all_zeros (String.◌∷◌ c s) = eqb (code c) b'0' && all_zeros s

-- The layout's `.999999999`: trailing zeros are removed.
unfoldable pub strip_zeros : String → String
unfolding all_zeros
strip_zeros String.[] = ""
strip_zeros (String.◌∷◌ c s) =
    let rest = String.◌∷◌ c (strip_zeros s) in if all_zeros (String.◌∷◌ c s) then "" else rest

unfoldable pub fraction : ℕ → String
unfolding fixed strip_zeros
fraction nanos = if eqb nanos 0 then "" else "." <> strip_zeros (fixed 9 nanos)

-- The date of a day counted from 1970-01-01, by eras of 400 years that begin in March.
unfoldable pub date_text : ℕ → String
unfolding fixed
date_text days =
    let z = days + 719468 in
    let era = z / 146097 in
    let doe = z % 146097 in
    let yoe = (doe + doe / 36524 - doe / 1460 - doe / 146096) / 365 in
    let doy = doe + yoe / 100 - (365 * yoe + yoe / 4) in
    let mp = (5 * doy + 2) / 153 in
    let day = doy - (153 * mp + 2) / 5 + 1 in
    let month = if leb mp 9 then mp + 3 else mp - 9 in
    let year = yoe + era * 400 + (if leb month 2 then 1 else 0) in
    fixed 4 year <> "-" <> fixed 2 month <> "-" <> fixed 2 day

unfoldable pub clock_text : ℕ → String
unfolding fixed
clock_text s = fixed 2 (s / 3600) <> ":" <> fixed 2 (s / 60 % 60) <> ":" <> fixed 2 (s % 60)

abbrev pub nanos_per_second : ℕ
nanos_per_second = 1000000000

unfoldable pub seconds_text : ℕ → String
unfolding date_text clock_text
seconds_text s = date_text (s / 86400) <> "T" <> clock_text (s % 86400)

unfoldable pub rfc3339_nano : ℕ → String
unfolding seconds_text fraction
rfc3339_nano t = seconds_text (t / nanos_per_second) <> fraction (t % nanos_per_second) <> "Z"
