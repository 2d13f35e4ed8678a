-- ===== src/Tests/Outputs.antt =====
-- internal/cli/output_formatter.go on concrete rows and texts.
use prec.Base.{◌≡◌, refl, true, false, Option, none, some, List, [], ◌∷◌, map, pos, ok}
use prec.Text.{Text, codes, equal, one_of, is_space, trim_left, trim_right, trim_space, split, join}
use prec.Event.{CommandEvent, empty_event}
use prec.Join.{JoinState}
use prec.Collect.{command_end_record_type_marker, collect_with_join, collect_streaming}
use prec.Output.Sanitize.{
  has_control, sanitize_terminal_text, sanitize_runes, sanitize_rune, is_control, hex_digit,
  sanitize_terminal_text-clean, Printed,
}
use prec.Output.Fields.{
  is_supported_output_field, parse_output_fields, select_fields, select_field, read_token,
  expand_field, apply_op, add_fields, remove_fields, without,
}
use prec.Output.Fields.Selected.{Distinct, Supported, parse_output_fields-Distinct}
use prec.Output.Values.{OutputValue}
use prec.Output.Format.{
  OutputOptions, new_output_formatter, requires_command_end_processing,
  is_finalized_only_output_field, resolve_structured_output_fields, format_event,
}
use prec.Output.Format.StartView.{printed-collect_streaming}
use prec.Output.Tree.{render_event_tree_with_formatter}
use prec.Output.Tree.Parents.{tree_lines, render_event_tree_with_formatter-tree_lines}
use prec.Tests.Queries.{clock, uid_spec, uid_filter, uid_filter_built, uid_filter_needs_no_end}
use prec.Tests.Logs.{decode, read_lines, log_paths, marked, distinct}

-- An escape character, which is printed as its code.
abbrev escape : Text
escape = 27 ∷ codes "[2J"

sanitize_terminal_text-clean_example :
    (has_control (sanitize_terminal_text escape) ≡ false)
    × (has_control escape ≡ false → sanitize_terminal_text escape ≡ escape)
    × Printed escape (sanitize_terminal_text escape)
sanitize_terminal_text-clean_example = sanitize_terminal_text-clean escape

escape_shown : sanitize_terminal_text escape ≡ codes "\\x1b[2J"
unfolding sanitize_terminal_text has_control is_control sanitize_runes sanitize_rune hex_digit
escape_shown = refl

-- The default fields but one, and another.
abbrev selected : List Text
selected = codes "timestamp" ∷ codes "group" ∷ codes "command" ∷ codes "pid" ∷ []

parse_output_fields-Distinct_example : Distinct selected × Supported selected
unfolding parse_output_fields select_fields select_field read_token expand_field
    is_supported_output_field apply_op add_fields remove_fields without equal one_of is_space
    trim_left trim_right trim_space split
parse_output_fields-Distinct_example =
    parse_output_fields-Distinct (codes "-user, +pid,group") selected refl

abbrev options : OutputOptions
options = record {
  tree = false;
  format = codes "csv";
  full_time = true;
  file_events = false;
  fields = codes "uid" ∷ [];
}

abbrev csv_line : List Text → Option Text
csv_line record_fields = some (join record_fields (codes ","))

abbrev marshal : List (Text × OutputValue) → Option Text
marshal values = none

abbrev print : List CommandEvent → List Text
print = map (format_event (λ raw. none) csv_line marshal (new_output_formatter options) true)

needless : requires_command_end_processing uid_filter options ≡ false
unfolding requires_command_end_processing is_finalized_only_output_field
    resolve_structured_output_fields one_of equal
needless = rw (requires_command_end_processing, uid_filter_needs_no_end) refl

printed-collect_streaming_example :
    (joined starts : List CommandEvent) × (left : JoinState) × (collect_with_join read_lines decode
        log_paths
        (pos 1)
        uid_filter
        []
      ≡ ok (joined, left))
    × (collect_streaming read_lines decode log_paths (pos 1) uid_filter ≡ ok starts)
    × (print starts ≡ print joined)
printed-collect_streaming_example =
    printed-collect_streaming (λ raw. none) csv_line marshal read_lines decode clock (uid_spec ∷ [])
      uid_filter options log_paths (codes "s" ∷ command_end_record_type_marker ∷ []) (pos 1)
      uid_filter_built needless refl marked distinct

-- A process, its child, and the child of another process.
abbrev family : List CommandEvent
family =
    record empty_event { pid = pos 2; ppid = pos 1 }
    ∷ record empty_event { pid = pos 3; ppid = pos 2 }
    ∷ record empty_event { pid = pos 5; ppid = pos 4 }
    ∷ []

render_event_tree_with_formatter-tree_lines_example :
    render_event_tree_with_formatter (λ raw. none) (λ ev. codes "x") family
    ≡ tree_lines (λ raw. none) (λ ev. codes "x") family []
render_event_tree_with_formatter-tree_lines_example =
    render_event_tree_with_formatter-tree_lines (λ raw. none) (λ ev. codes "x") family
