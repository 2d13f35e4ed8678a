-- ===== src/Query/Duration/Round.antt =====
-- internal/query/filter.go: `ParseDurationValue` on what `FormatDurationValue` prints.
use prec.Base.{
  ℕ, ◌*◌, ◌/◌, ◌^◌, ◌≤◌, ◌<◌, ◌≡◌, refl, ◌∙◌, Bool, true, false, not, ◌||◌, some, [], ◌∷◌, ◌++◌,
  arith, ltb, leb, ◌==◌, if◌then◌else◌, ==_iff, pos, ok, err,
}
use prec.Query.Duration.{
  out_of_range, too_large, max_duration_sec, nanoseconds_per_second, total_duration,
  parse_component, all_digits, parse_parts, parse_date_time, parse_duration_value,
  format_duration_value, date_text, time_text, years_of, months_of, days_of, hours_of, minutes_of,
  seconds_of,
}
use prec.Query.Duration.Bounds.{exact_seconds, total_duration_lem}
use prec.Text.{Text, is_empty, is_space, codes, trim_space, fields, split}
use prec.Text.Number.{
  is_digit, parse_int64_digits, max_int64, IsDigits, padded, padded-IsDigits, padded_nonempty,
  digits_onto-padded,
}
use prec.Text.Runs.{
  Avoids, Avoids-append, Avoids-mono, is_empty-append, split_three, fields_two, trim_space-ends,
}

all_digits-IsDigits : (s : Text) → IsDigits s → all_digits s ≡ true
unfolding all_digits
all_digits-IsDigits [] h = refl
all_digits-IsDigits (c ∷ s) h = ground (arith, h.0, all_digits-IsDigits s h.1)

-- A printed component is read back.
parse_component-padded : (w n : ℕ) → n ≤ max_int64 → parse_component (padded w n) ≡ ok n
unfolding parse_component
parse_component-padded w n le = rw (
  padded_nonempty w n,
  all_digits-IsDigits (padded w n) (padded-IsDigits w n),
  parse_int64_digits (padded w n) n (padded_nonempty w n) (padded-IsDigits w n)
      (digits_onto-padded w n) le,
)

-- Digits are neither space nor a separator.
digits_avoid :
    (q : ℕ → Bool)
    → ((c : ℕ) → not (is_digit c) ≡ false → q c ≡ false)
    → (w n : ℕ) → Avoids q (padded w n)
digits_avoid q f w n = Avoids-mono (λ c. not (is_digit c)) q f (padded w n) (padded-IsDigits w n)

digit_not_space : (c : ℕ) → not (is_digit c) ≡ false → is_space c ≡ false
unfolding is_digit is_space
digit_not_space c h = ground arith

-- Three printed numbers between two marks.
abbrev triple : ℕ → ℕ → ℕ → ℕ → ℕ → Text
triple mark w a b c = padded w a ++ (mark ∷ (padded 2 b ++ (mark ∷ padded 2 c)))

module _ (mark : ℕ) (digitless : is_digit mark ≡ false) (spaceless : is_space mark ≡ false) where
  split-triple :
      (w a b c : ℕ)
      → split (triple mark w a b c) (mark ∷ []) ≡ padded w a ∷ padded 2 b ∷ padded 2 c ∷ []
  split-triple w a b c =
      split_three mark (padded w a) (padded 2 b) (padded 2 c) (avoid w a) (avoid 2 b) (avoid 2 c)
    where
      avoid : (w n : ℕ) → Avoids (λ x. x == mark) (padded w n)
      avoid w n = digits_avoid (λ x. x == mark) (λ c h. ground (arith, ==_iff c mark)) w n

  triple_spaceless : (w a b c : ℕ) → Avoids is_space (triple mark w a b c)
  triple_spaceless w a b c =
      Avoids-append is_space (padded w a) _ (number w a)
        (spaceless, Avoids-append is_space (padded 2 b) _ (number 2 b) (spaceless, number 2 c))
    where
      number : (w n : ℕ) → Avoids is_space (padded w n)
      number = digits_avoid is_space digit_not_space

  triple_nonempty : (w a b c : ℕ) → is_empty (triple mark w a b c) ≡ false
  triple_nonempty w a b c = is_empty-append (padded w a) _ refl

-- The six printed components, read back.
parse_parts-padded :
    (y mo d h mi s : ℕ)
    → y ≤ max_int64
    → mo ≤ max_int64
    → d ≤ max_int64
    → h ≤ max_int64
    → mi ≤ max_int64
    → s ≤ max_int64
    → parse_parts
        (padded 4 y ∷ padded 2 mo ∷ padded 2 d ∷ [])
        (padded 2 h ∷ padded 2 mi ∷ padded 2 s ∷ [])
      ≡ total_duration (y ∷ mo ∷ d ∷ h ∷ mi ∷ s ∷ [])
unfolding parse_parts
parse_parts-padded y mo d h mi s a b c e f g = rw (
  parse_component-padded 4 y a,
  parse_component-padded 2 mo b,
  parse_component-padded 2 d c,
  parse_component-padded 2 h e,
  parse_component-padded 2 mi f,
  parse_component-padded 2 s g,
)

-- The text is cut into its six components again.
parse-printed :
    (t : ℕ)
    → parse_duration_value (date_text t ++ (b' ' ∷ time_text t))
      ≡ parse_parts
          (padded 4 (years_of t) ∷ padded 2 (months_of t) ∷ padded 2 (days_of t) ∷ [])
          (padded 2 (hours_of t) ∷ padded 2 (minutes_of t) ∷ padded 2 (seconds_of t) ∷ [])
unfolding parse_duration_value
parse-printed t = rw (trimmed, cut) (unfold parse_date_time in rw (dates, times))
  where
    dash_digit : is_digit b'-' ≡ false
    dash_digit = unfold is_digit in refl

    dash_space : is_space b'-' ≡ false
    dash_space = unfold is_space in refl

    colon_digit : is_digit b':' ≡ false
    colon_digit = unfold is_digit in refl

    colon_space : is_space b':' ≡ false
    colon_space = unfold is_space in refl

    date_full : is_empty (date_text t) ≡ false
    date_full = triple_nonempty b'-' dash_digit dash_space 4 (years_of t) (months_of t) (days_of t)

    time_full : is_empty (time_text t) ≡ false
    time_full =
        triple_nonempty b':' colon_digit colon_space 2 (hours_of t) (minutes_of t) (seconds_of t)

    date_run : Avoids is_space (date_text t)
    date_run = triple_spaceless b'-' dash_digit dash_space 4 (years_of t) (months_of t) (days_of t)

    time_run : Avoids is_space (time_text t)
    time_run =
        triple_spaceless b':' colon_digit colon_space 2 (hours_of t) (minutes_of t) (seconds_of t)

    trimmed : trim_space (date_text t ++ (b' ' ∷ time_text t)) ≡ date_text t ++ (b' ' ∷ time_text t)
    trimmed =
        trim_space-ends (date_text t) (time_text t) (b' ' ∷ []) date_full date_run time_full
          time_run

    cut : fields (date_text t ++ (b' ' ∷ time_text t)) ≡ date_text t ∷ time_text t ∷ []
    cut = fields_two (date_text t) (time_text t) date_full date_run time_full time_run

    dates :
        split (date_text t) (codes "-")
        ≡ padded 4 (years_of t) ∷ padded 2 (months_of t) ∷ padded 2 (days_of t) ∷ []
    dates = split-triple b'-' dash_digit dash_space 4 (years_of t) (months_of t) (days_of t)

    times :
        split (time_text t) (codes ":")
        ≡ padded 2 (hours_of t) ∷ padded 2 (minutes_of t) ∷ padded 2 (seconds_of t) ∷ []
    times = split-triple b':' colon_digit colon_space 2 (hours_of t) (minutes_of t) (seconds_of t)

-- The components of a total make it up again.
exact_seconds-of :
    (t : ℕ)
    → exact_seconds
        (years_of t)
        (months_of t)
        (days_of t)
        (hours_of t)
        (minutes_of t)
        (seconds_of t)
      ≡ t
exact_seconds-of t = omega arith

only_months :
    (mo d h mi s t : ℕ)
    → d < 31
    → h < 24
    → mi < 60
    → s < 60
    → t ≤ max_duration_sec
    → (if leb 12 mo || leb 31 d || leb 24 h || leb 60 mi || leb 60 s
        then err out_of_range
        else if ltb max_duration_sec t
        then err too_large
        else ok (t * nanoseconds_per_second))
      ≡ (if leb 12 mo then err out_of_range else ok (t * nanoseconds_per_second))
only_months mo d h mi s t a b c e f = ground arith

-- Only the months can be out of range, and the total always fits.
in_range :
    (t : ℕ)
    → t ≤ max_duration_sec
    → (if leb 12 (months_of t)
          || leb 31 (days_of t)
          || leb 24 (hours_of t)
          || leb 60 (minutes_of t)
          || leb 60 (seconds_of t)
        then err out_of_range
        else if ltb max_duration_sec (
            exact_seconds
              (years_of t)
              (months_of t)
              (days_of t)
              (hours_of t)
              (minutes_of t)
              (seconds_of t))
        then err too_large
        else ok (
            exact_seconds
              (years_of t)
              (months_of t)
              (days_of t)
              (hours_of t)
              (minutes_of t)
              (seconds_of t)
            * nanoseconds_per_second))
      ≡ (if leb 12 (months_of t) then err out_of_range else ok (t * nanoseconds_per_second))
in_range t h = rw (exact_seconds-of t) (
    only_months (months_of t) (days_of t) (hours_of t) (minutes_of t) (seconds_of t) t (omega arith)
      (omega arith) (omega arith) (omega arith) h)

-- `ParseDurationValue` applied to the text that `FormatDurationValue` prints for a duration that is
-- not negative: the duration, cut to whole seconds, unless the printed month count is 12, and then
-- the error that a component is out of range.
pub parse-format_duration_value :
    (n : ℕ)
    → n < 2 ^ 63
    → parse_duration_value (format_duration_value (some (pos n))) ≡ (
        if leb 12 (months_of (n / nanoseconds_per_second))
        then err out_of_range
        else ok (n / nanoseconds_per_second * nanoseconds_per_second))
unfolding format_duration_value
parse-format_duration_value n h =
    let t = n / nanoseconds_per_second in
    parse-printed t
    ∙ parse_parts-padded (years_of t) (months_of t) (days_of t) (hours_of t) (minutes_of t)
        (seconds_of t) (omega arith) (omega arith) (omega arith) (omega arith) (omega arith)
        (omega arith)
    ∙ total_duration_lem (years_of t) (months_of t) (days_of t) (hours_of t) (minutes_of t)
        (seconds_of t)
    ∙ in_range t (omega arith)
