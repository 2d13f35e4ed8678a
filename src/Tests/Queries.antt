-- ===== src/Tests/Queries.antt =====
-- internal/query/filter.go on concrete query texts, clauses and durations.
use prec.Base.{
  Every, ◌*◌, ◌%◌, ◌^◌, ◌<◌, ◌≡◌, refl, ◌↔◌, true, false, none, some, List, [], ◌∷◌, arith, pos,
  negsuc, Result, ok, err, map_result,
}
use prec.Text.{
  Text, codes, equal, one_of, is_space, trim_left, trim_right, trim_space, has_prefix, index,
  split_onto, split, fields_onto, fields,
}
use prec.Text.Number.{is_digit, digits_onto, parse_int64}
use prec.Event.{CommandEvent, empty_event}
use prec.Query.Operator.{
  first_operator, find_operator, compare_time, compare_int64, is_supported_number_operator,
}
use prec.Query.Operator.Laws.{find_operator-clause, compare_time-compare_int64}
use prec.Query.Field.{TimeParser, field_type_for, is_finalized_only_field}
use prec.Query.Duration.{
  out_of_range, nanoseconds_per_second, all_digits, parse_component, accumulate, total_duration,
  parse_parts, parse_date_time, parse_duration_value, format_duration_value,
}
use prec.Query.Duration.Bounds.{total_duration_lem, parse_duration_value-IsDuration}
use prec.Query.Duration.Round.{parse-format_duration_value}
use prec.Query.Split.{QueryError, split_loop, split_by_delimiter, and_loop, split_by_and_delimiters}
use prec.Query.Split.Laws.{split_by_delimiter-tokens, split_by_and_delimiters-split_by_delimiter}
use prec.Query.Clause.{Compiled, number_clause, typed_clause, keyed_clause, parse_clause}
use prec.Query.Clause.Render.{parse_clause-parts}
use prec.Query.Clause.StartView.{with_end}
use prec.Query.Filter.{
  Filter, parse_term, parse_spec_expression, build_onto, build, matches, terms_need, term_needs,
}
use prec.Query.Filter.StartView.{build-IgnoresEnd}
use prec.Query.Filter.Meaning.{build-clauses_of, clauses_of, Some}

-- A time parser that refuses every text.
abbrev pub clock : TimeParser
clock = record { rfc3339_nano = λ _. none; rfc3339 = λ _. none }

abbrev pub uid_spec : Text
uid_spec = codes "uid=0"

abbrev compiled_or : Filter → Result QueryError Filter → Filter
compiled_or d (ok f) = f
compiled_or d (err _) = d

abbrev no_filter : Filter
no_filter = record { predicates = []; needs_finalized_command = true }

abbrev pub uid_filter : Filter
uid_filter = compiled_or no_filter (build clock (uid_spec ∷ []))

pub uid_filter_built : build clock (uid_spec ∷ []) ≡ ok uid_filter
unfolding build build_onto parse_spec_expression parse_term split_by_delimiter split_loop
    split_by_and_delimiters and_loop parse_clause keyed_clause typed_clause number_clause trim_space
    trim_left trim_right is_space index has_prefix find_operator first_operator field_type_for
    one_of equal is_supported_number_operator parse_int64 digits_onto is_digit
    is_finalized_only_field
uid_filter_built = refl

pub uid_filter_needs_no_end : uid_filter.needs_finalized_command ≡ false
unfolding build build_onto parse_spec_expression parse_term split_by_delimiter split_loop
    split_by_and_delimiters and_loop parse_clause keyed_clause typed_clause number_clause trim_space
    trim_left trim_right is_space index has_prefix find_operator first_operator field_type_for
    one_of equal is_supported_number_operator parse_int64 digits_onto is_digit
    is_finalized_only_field terms_need term_needs
uid_filter_needs_no_end = refl

build-IgnoresEnd_example :
    matches uid_filter (with_end empty_event (codes "z") (some (pos 5)) none)
    ≡ matches uid_filter empty_event
build-IgnoresEnd_example =
    build-IgnoresEnd clock (uid_spec ∷ []) uid_filter uid_filter_built uid_filter_needs_no_end
      empty_event (codes "z") (some (pos 5)) none

build-clauses_of_example :
    (dnf : List (List (List Compiled))) × (map_result (clauses_of clock) (uid_spec ∷ []) ≡ ok dnf)
    × ((ev : CommandEvent)
        → (matches uid_filter ev ≡ true) ↔ Every (Some (Every (λ c. c.0 ev ≡ true))) dnf)
    × ((uid_filter.needs_finalized_command ≡ true) ↔ Some (Some (Some (λ c. c.1 ≡ true))) dnf)
build-clauses_of_example = build-clauses_of clock (uid_spec ∷ []) uid_filter uid_filter_built

split_by_delimiter-tokens_example :
    split_by_delimiter (codes "a || b") (codes "||") ≡ ok (codes "a" ∷ codes "b" ∷ [])
unfolding split split_onto trim_space trim_left trim_right is_space has_prefix
split_by_delimiter-tokens_example = split_by_delimiter-tokens (codes "a || b") b'|' (b'|' ∷ [])

split_by_and_delimiters_example :
    split_by_and_delimiters (codes "a && &&") ≡ split_by_delimiter (codes "a && &&") (codes "&&")
split_by_and_delimiters_example = split_by_and_delimiters-split_by_delimiter (codes "a && &&")

parse_clause-parts_example :
    parse_clause clock (codes " uid >= 1000 ")
    ≡ keyed_clause clock (codes "uid") (codes ">=") (codes "1000")
unfolding trim_space trim_left trim_right is_space one_of equal
parse_clause-parts_example =
    parse_clause-parts clock (codes " uid ") (codes ">=") (codes " 1000 ") refl
      (refl, (refl, (refl, (refl, (refl, tt))))) refl
      (refl, (refl, (refl, (refl, (refl, (refl, tt))))))

find_operator-clause_example : find_operator (codes "comm!~=sh") ≡ some (codes "!~=", 4)
unfolding one_of equal
find_operator-clause_example =
    find_operator-clause (codes "comm") (codes "!~=") (codes "sh") refl
      (refl, (refl, (refl, (refl, tt)))) refl (refl, (refl, tt))

compare_time-compare_int64_example :
    compare_time (pos 3) (negsuc 4) (codes ">=") ≡ compare_int64 (pos 3) (negsuc 4) (codes ">=")
compare_time-compare_int64_example = compare_time-compare_int64 (pos 3) (negsuc 4) (codes ">=")

-- A duration in the last five days of a year of 365 days is printed with month 12, and refused.
parse-format_duration_value_example :
    parse_duration_value (format_duration_value (some (pos (31104000 * nanoseconds_per_second))))
    ≡ err out_of_range
parse-format_duration_value_example =
    parse-format_duration_value (31104000 * nanoseconds_per_second) (omega arith)

total_duration_lem_example :
    total_duration (0 ∷ 0 ∷ 1 ∷ 2 ∷ 3 ∷ 4 ∷ []) ≡ ok (93784 * nanoseconds_per_second)
total_duration_lem_example = total_duration_lem 0 0 1 2 3 4

a_minute : parse_duration_value (codes "0000-00-00 00:01:00") ≡ ok (60 * nanoseconds_per_second)
unfolding parse_duration_value parse_date_time parse_parts parse_component total_duration accumulate
    all_digits parse_int64 digits_onto is_digit trim_space trim_left trim_right is_space fields
    fields_onto split split_onto has_prefix
a_minute = refl

parse_duration_value-IsDuration_example :
    (60 * nanoseconds_per_second % nanoseconds_per_second ≡ 0)
    × (60 * nanoseconds_per_second < 2 ^ 63)
parse_duration_value-IsDuration_example =
    parse_duration_value-IsDuration (codes "0000-00-00 00:01:00") (60 * nanoseconds_per_second)
      a_minute
