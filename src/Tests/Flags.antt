-- ===== src/Tests/Flags.antt =====
-- internal/cli/app.go without flags.
use prec.Base.{refl, false, [], pos, Result, ok, err}
use prec.Text.{codes, is_space}
use prec.Event.{CommandEvent, empty_event}
use prec.Event.RecordType
use prec.Query.Operator.{find_operator, is_supported_string_operator, compare_string}
use prec.Query.Field.{field_type_for, string_value}
use prec.Query.Split.{QueryError, split_by_delimiter, split_by_and_delimiters}
use prec.Query.Clause.{parse_clause, normalize_value}
use prec.Query.Filter.{Filter, build, matches}
use prec.App.{RootCli, effective_query_specs}
use prec.App.Shown.{IsShown, effective_query_specs-IsShown}
use prec.Tests.Queries.{clock}

abbrev no_flags : RootCli
no_flags = record {
  source = [];
  query = [];
  limit = pos 0;
  follow = false;
  file_events = false;
  tree = false;
  output = [];
}

abbrev filter_of : Result QueryError Filter → Filter
filter_of (ok f) = f
filter_of (err e) = record { predicates = []; needs_finalized_command = false }

abbrev shown_filter : Filter
shown_filter = filter_of (build clock (effective_query_specs no_flags))

abbrev user_command : CommandEvent
user_command = record empty_event { source = codes "user"; record_type = RecordType.command }

effective_query_specs-IsShown_example : IsShown clock no_flags user_command
unfolding build effective_query_specs split_by_delimiter is_space split_by_and_delimiters
    parse_clause find_operator field_type_for is_supported_string_operator normalize_value matches
    compare_string string_value
effective_query_specs-IsShown_example =
    effective_query_specs-IsShown clock no_flags shown_filter user_command refl refl
