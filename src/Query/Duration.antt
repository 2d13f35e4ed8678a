-- ===== src/Query/Duration.antt =====
-- internal/query/filter.go: `ParseDurationValue` and `FormatDurationValue`, durations written as
-- YYYY-MM-DD HH:MM:SS with years of 365 and months of 30 days.
pub mod Bounds
pub mod Round
use prec.Base.{
  ℕ, zero, suc, ◌+◌, ◌-◌, ◌*◌, ◌/◌, ◌%◌, ◌^◌, ◌≤◌, ◌<◌, min, String, ◌≡◌, refl, sym, ap, ap₂, ◌∙◌,
  ◌≡⟨◌⟩◌, ◌∎, ◌≢◌, ◌↔◌, ◌⊎◌, inl, inr, Bool, true, false, not, ◌&&◌, ◌||◌, Option, none, some, List,
  [], ◌∷◌, ◌++◌, map, append-nil, append_assoc, arith, ltb, leb, ◌==◌, if◌then◌else◌, Bool-cases,
  Option-cases, ==_iff, ltb→lt, lt→ltb, leb→le, tests, length, get_elem?, get_or, set, take, drop,
  replicate, length-append, ℤ, pos, negsuc, pos_part, neg_part, ltb_ℤ, leb_ℤ, eqb_ℤ, ◌≤ℤ◌,
  eqb_ℤ_iff, Result, ok, err, ◌>>=◌, bind-eq-ok, map_result,
}
use prec.Text.{Text, codes, is_empty, trim_space, split, fields}
use prec.Text.Number.{is_digit, digits_onto, parse_int64, padded}

abbrev pub seconds_per_minute : ℕ
seconds_per_minute = 60

abbrev pub seconds_per_hour : ℕ
seconds_per_hour = 60 * 60

abbrev pub seconds_per_day : ℕ
seconds_per_day = 24 * 60 * 60

abbrev pub seconds_per_month : ℕ
seconds_per_month = 30 * 24 * 60 * 60

abbrev pub seconds_per_year : ℕ
seconds_per_year = 365 * 24 * 60 * 60

-- `time.Second`, in nanoseconds.
abbrev pub nanoseconds_per_second : ℕ
nanoseconds_per_second = 1000000000

-- `int64(1<<63-1) / int64(time.Second)`
abbrev pub max_duration_sec : ℕ
max_duration_sec = (2 ^ 63 - 1) / nanoseconds_per_second

pub data DurationError : Type 0 where
  invalid_format out_of_range too_large : DurationError

unfoldable pub all_digits : Text → Bool
unfolding is_digit
all_digits [] = true
all_digits (c ∷ s) = is_digit c && all_digits s

-- The body of the loop over `parts`. A run of digits has no sign, so `ParseInt` gives no negative
-- number here.
unfoldable pub parse_component : Text → Result DurationError ℕ
unfolding all_digits parse_int64
parse_component part =
    if is_empty part
    then err invalid_format
    else if not (all_digits part)
    then err invalid_format
    else elim (parse_int64 part) [ some (pos v) ↦ ok v | _ ↦ err invalid_format ]

-- The loop over `values` and `units`.
unfoldable pub accumulate : ℕ → List (ℕ × ℕ) → Result DurationError ℕ
accumulate total [] = ok total
accumulate total ((value, unit) ∷ rest) =
    let next = accumulate (total + value * unit) rest in
    if ltb ((max_duration_sec - total) / unit) value then err too_large else next

-- The checks on `values`, and the total in nanoseconds. Six parts have been counted before.
unfoldable pub total_duration : List ℕ → Result DurationError ℕ
unfolding accumulate
total_duration (years ∷ months ∷ days ∷ hours ∷ minutes ∷ seconds ∷ []) =
    if leb 12 months || leb 31 days || leb 24 hours || leb 60 minutes || leb 60 seconds
    then err out_of_range
    else (accumulate 0 (
          (years, seconds_per_year)
          ∷ (months, seconds_per_month)
          ∷ (days, seconds_per_day)
          ∷ (hours, seconds_per_hour)
          ∷ (minutes, seconds_per_minute)
          ∷ (seconds, 1)
          ∷ [])
        >>= λ total_sec. ok (total_sec * nanoseconds_per_second))
total_duration _ = err invalid_format

-- `len(dateParts) != 3 || len(timeParts) != 3`, and the loop over the parts.
unfoldable pub parse_parts : List Text → List Text → Result DurationError ℕ
unfolding parse_component total_duration
parse_parts date_parts time_parts =
    if not (length date_parts == 3) || not (length time_parts == 3)
    then err invalid_format
    else (map_result parse_component (date_parts ++ time_parts) >>= total_duration)

-- `len(dateTime) != 2`
unfoldable pub parse_date_time : List Text → Result DurationError ℕ
unfolding parse_parts split
parse_date_time (date ∷ time ∷ []) = parse_parts (split date (codes "-")) (split time (codes ":"))
parse_date_time _ = err invalid_format

-- `ParseDurationValue`
unfoldable pub parse_duration_value : Text → Result DurationError ℕ
unfolding parse_date_time trim_space fields
parse_duration_value raw = parse_date_time (fields (trim_space raw))

-- The components that `FormatDurationValue` prints, by successive remainders.
abbrev pub years_of : ℕ → ℕ
years_of total = total / seconds_per_year

abbrev pub months_of : ℕ → ℕ
months_of total = total % seconds_per_year / seconds_per_month

abbrev pub days_of : ℕ → ℕ
days_of total = total % seconds_per_year % seconds_per_month / seconds_per_day

abbrev pub hours_of : ℕ → ℕ
hours_of total = total % seconds_per_year % seconds_per_month % seconds_per_day / seconds_per_hour

abbrev pub minutes_of : ℕ → ℕ
minutes_of total =
    total % seconds_per_year % seconds_per_month % seconds_per_day % seconds_per_hour
    / seconds_per_minute

abbrev pub seconds_of : ℕ → ℕ
seconds_of total =
    total % seconds_per_year % seconds_per_month % seconds_per_day % seconds_per_hour
    % seconds_per_minute

-- `*durationNS / int64(time.Second)`, and 0 where that is negative: Go truncates towards 0.
abbrev total_seconds : ℤ → ℕ
total_seconds (pos n) = n / nanoseconds_per_second
total_seconds (negsuc _) = 0

-- The date and the time of `fmt.Sprintf("%04d-%02d-%02d %02d:%02d:%02d", ...)`.
abbrev pub date_text : ℕ → Text
date_text t =
    padded 4 (years_of t) ++ (b'-' ∷ (padded 2 (months_of t) ++ (b'-' ∷ padded 2 (days_of t))))

abbrev pub time_text : ℕ → Text
time_text t =
    padded 2 (hours_of t) ++ (b':' ∷ (padded 2 (minutes_of t) ++ (b':' ∷ padded 2 (seconds_of t))))

-- `FormatDurationValue`
unfoldable pub format_duration_value : Option ℤ → Text
unfolding padded
format_duration_value none = []
format_duration_value (some ns) = let t = total_seconds ns in date_text t ++ (b' ' ∷ time_text t)
