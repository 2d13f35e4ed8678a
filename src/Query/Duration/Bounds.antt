-- ===== src/Query/Duration/Bounds.antt =====
-- internal/query/filter.go: the total of the components of a duration, and its bounds.
use prec.Base.{
  ℕ, ◌+◌, ◌-◌, ◌*◌, ◌/◌, ◌%◌, ◌^◌, ◌≤◌, ◌<◌, ◌≡◌, refl, inl, inr, Bool, true, false, not, ◌||◌,
  List, [], ◌∷◌, ◌++◌, arith, ltb, leb, ◌==◌, if◌then◌else◌, Bool-cases, length, Result, ok, err,
  ◌>>=◌, bind-eq-ok, map_result,
}
use native.Mathlib.Nat.{div-lt_iff_lt-mul}
use prec.Query.Duration.{
  DurationError, too_large, max_duration_sec, nanoseconds_per_second, seconds_per_year,
  seconds_per_month, seconds_per_day, seconds_per_hour, seconds_per_minute, out_of_range,
  accumulate, parse_component, total_duration, parse_parts, parse_date_time, parse_duration_value,
}
use prec.Text.{Text, codes, trim_space, fields, split}

-- The exact sum of values and units.
abbrev weighted_sum : List (ℕ × ℕ) → ℕ
weighted_sum [] = 0
weighted_sum ((value, unit) ∷ rest) = value * unit + weighted_sum rest

abbrev AllPositive : List (ℕ × ℕ) → Type 0
AllPositive [] = Unit {0}
AllPositive ((value, unit) ∷ rest) = (0 < unit) × AllPositive rest

-- The test of the loop is the overflow test: it asks whether the next total fits.
fits_iff :
    (total value unit : ℕ)
    → total ≤ max_duration_sec
    → 0 < unit
    → ltb ((max_duration_sec - total) / unit) value ≡ ltb max_duration_sec (total + value * unit)
fits_iff total value unit h u =
    let e = div-lt_iff_lt-mul {k = unit} {x = max_duration_sec - total} {y = value} u in
    ground (arith, e.0, e.1)

-- The loop over `values` and `units` gives the exact sum if that fits, and else the error.
accumulate_lem :
    (parts : List (ℕ × ℕ)) (total : ℕ)
    → total ≤ max_duration_sec
    → AllPositive parts
    → accumulate total parts ≡ (
        if ltb max_duration_sec (total + weighted_sum parts)
        then err too_large
        else ok (total + weighted_sum parts))
unfolding accumulate
accumulate_lem [] total h u = ground arith
accumulate_lem ((value, unit) ∷ rest) total h u =
    ground (arith, fits_iff total value unit h u.0, accumulate_lem rest (total + value * unit))

-- The exact number of seconds of six components.
abbrev pub exact_seconds : ℕ → ℕ → ℕ → ℕ → ℕ → ℕ → ℕ
exact_seconds years months days hours minutes seconds =
    years * seconds_per_year
    + months * seconds_per_month
    + days * seconds_per_day
    + hours * seconds_per_hour
    + minutes * seconds_per_minute
    + seconds

bind-if :
    (t : Bool) (e : DurationError) (n : ℕ) (f : ℕ → Result DurationError ℕ)
    → ((if t then err e else ok n) >>= f) ≡ (if t then err e else f n)
bind-if true e n f = refl
bind-if false e n f = refl

-- The six components are accepted if each but the years is in its range and the exact total fits
-- in the int64 nanoseconds; the result is then the exact total.
pub total_duration_lem :
    (y mo d h mi s : ℕ)
    → total_duration (y ∷ mo ∷ d ∷ h ∷ mi ∷ s ∷ []) ≡ (
        if leb 12 mo || leb 31 d || leb 24 h || leb 60 mi || leb 60 s
        then err out_of_range
        else if ltb max_duration_sec (exact_seconds y mo d h mi s)
        then err too_large
        else ok (exact_seconds y mo d h mi s * nanoseconds_per_second))
unfolding total_duration
total_duration_lem y mo d h mi s =
    let parts : List (ℕ × ℕ) =
      (y, seconds_per_year)
      ∷ (mo, seconds_per_month)
      ∷ (d, seconds_per_day)
      ∷ (h, seconds_per_hour)
      ∷ (mi, seconds_per_minute)
      ∷ (s, 1)
      ∷ [] in
    let sum : 0 + weighted_sum parts ≡ exact_seconds y mo d h mi s = omega arith in
    rw (accumulate_lem parts 0 (omega arith) (omega arith), sum, bind-if)

-- A whole number of seconds that fits in an int64 of nanoseconds.
abbrev IsDuration : ℕ → Type 0
IsDuration ns = (ns % nanoseconds_per_second ≡ 0) × (ns < 2 ^ 63)

total_duration-IsDuration :
    (values : List ℕ) (ns : ℕ) → total_duration values ≡ ok ns → IsDuration ns
total_duration-IsDuration [] ns h = unfold total_duration in cc
total_duration-IsDuration (y ∷ mo ∷ d ∷ h ∷ mi ∷ s ∷ []) ns e =
    ground (arith, total_duration_lem y mo d h mi s)
total_duration-IsDuration _ ns h = unfold total_duration in cc

parse_parts-IsDuration :
    (date time : List Text) (ns : ℕ) → parse_parts date time ≡ ok ns → IsDuration ns
unfolding parse_parts
parse_parts-IsDuration date time ns h =
    elim (Bool-cases (not (length date == 3) || not (length time == 3))) [
      | inl bad ↦ cc (rw bad at h)
      | inr good ↦
          let (values, _, e) =
            bind-eq-ok (map_result parse_component (date ++ time)) total_duration (rw good at h) in
          total_duration-IsDuration values ns e
    ]

parse_date_time-IsDuration :
    (parts : List Text) (ns : ℕ) → parse_date_time parts ≡ ok ns → IsDuration ns
parse_date_time-IsDuration [] ns h = unfold parse_date_time in cc
parse_date_time-IsDuration (date ∷ time ∷ []) ns h =
    parse_parts-IsDuration (split date (codes "-")) (split time (codes ":")) ns
      (unfold parse_date_time in h)
parse_date_time-IsDuration _ ns h = unfold parse_date_time in cc

-- A duration that `ParseDurationValue` accepts is a whole number of seconds, given in nanoseconds
-- that fit in an int64: neither the sum nor the last product has wrapped around.
pub parse_duration_value-IsDuration :
    (raw : Text) (ns : ℕ)
    → parse_duration_value raw ≡ ok ns
    → (ns % nanoseconds_per_second ≡ 0) × (ns < 2 ^ 63)
unfolding parse_duration_value
parse_duration_value-IsDuration raw ns h = parse_date_time-IsDuration (fields (trim_space raw)) ns h
