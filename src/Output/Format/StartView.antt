-- ===== src/Output/Format/StartView.antt =====
-- internal/cli/output_formatter.go and internal/cli/event_collection.go: what is printed of rows that
-- differ in the fields of an end record alone.
use prec.Base.{
  ◌≡◌, refl, sym, inl, inr, Bool, false, not, ◌||◌, Option, List, [], ◌∷◌, map, arith, Bool-cases,
  ℤ, Result, ok,
}
use prec.Text.{Text, codes, one_of, equal, switch}
use prec.Event.{CommandEvent}
use prec.Query.Field.{TimeParser}
use prec.Query.Clause.StartView.{with_end}
use prec.Query.Filter.{Filter, build}
use prec.Join.{JoinState}
use prec.Collect.{collect_with_join, collect_streaming}
use prec.Collect.Newest.{all_lines, decoded}
use prec.Collect.Views.{MarkedEnds, collect_streaming-collect_with_join}
use prec.Collect.Views.Same.{SameStarts, StartsDistinct}
use prec.Output.Values.{OutputValue, output_field_value}
use prec.Output.Format.{
  OutputOptions, OutputFormatter, simple_text, structured_text, json, csv,
  resolve_structured_output_fields, new_output_formatter, is_nil, is_finalized_only_output_field,
  any_finalized_only, requires_command_end_processing, csv_record, json_record, format_event_simple,
  format_event,
}

module _ (format_local : Text → Option Text) where
  output_field_value-with_end :
      (field : Text) (full_time : Bool) (ev : CommandEvent) (t : Text) (d x : Option ℤ)
      → is_finalized_only_output_field field ≡ false
      → output_field_value format_local field (with_end ev t d x) full_time
        ≡ output_field_value format_local field ev full_time
  unfolding output_field_value is_finalized_only_output_field switch one_of
  output_field_value-with_end field full_time ev t d x h = ground arith

module _ (format_local : Text → Option Text) (csv_line : List Text → Option Text)
    (marshal : List (Text × OutputValue) → Option Text) where
  csv_record-with_end :
      (fields : List Text) (full_time : Bool) (ev : CommandEvent) (t : Text) (d x : Option ℤ)
      → any_finalized_only fields ≡ false
      → csv_record format_local csv_line marshal (with_end ev t d x) full_time fields
        ≡ csv_record format_local csv_line marshal ev full_time fields
  unfolding csv_record
  csv_record-with_end [] full_time ev t d x h = refl
  csv_record-with_end (field ∷ fields) full_time ev t d x h =
      rw
        (
          output_field_value-with_end format_local field full_time ev t d x (ground arith),
          csv_record-with_end fields full_time ev t d x (ground arith),
        )
        refl

  json_record-with_end :
      (fields : List Text) (full_time : Bool) (ev : CommandEvent) (t : Text) (d x : Option ℤ)
      → any_finalized_only fields ≡ false
      → json_record format_local csv_line marshal (with_end ev t d x) full_time fields
        ≡ json_record format_local csv_line marshal ev full_time fields
  unfolding json_record
  json_record-with_end [] full_time ev t d x h = refl
  json_record-with_end (field ∷ fields) full_time ev t d x h =
      rw
        (
          output_field_value-with_end format_local field full_time ev t d x (ground arith),
          json_record-with_end fields full_time ev t d x (ground arith),
        )
        refl

  -- The fields that a formatter prints.
  abbrev fields_of : OutputFormatter → List Text
  fields_of simple_text = []
  fields_of (structured_text fields) = fields
  fields_of (json fields) = fields
  fields_of (csv fields) = fields

  format_event-with_end :
      (f : OutputFormatter) (full_time : Bool) (ev : CommandEvent) (t : Text) (d x : Option ℤ)
      → any_finalized_only (fields_of f) ≡ false
      → format_event format_local csv_line marshal f full_time (with_end ev t d x)
        ≡ format_event format_local csv_line marshal f full_time ev
  unfolding format_event format_event_simple
  format_event-with_end simple_text full_time ev t d x h = refl
  format_event-with_end (structured_text fields) full_time ev t d x h =
      rw (csv_record-with_end fields full_time ev t d x h) refl
  format_event-with_end (json fields) full_time ev t d x h =
      rw (json_record-with_end fields full_time ev t d x h) refl
  format_event-with_end (csv fields) full_time ev t d x h =
      rw (csv_record-with_end fields full_time ev t d x h) refl

  new_output_formatter-fields :
      (opt : OutputOptions)
      → any_finalized_only (resolve_structured_output_fields opt) ≡ false
      → any_finalized_only (fields_of (new_output_formatter opt)) ≡ false
  unfolding new_output_formatter
  new_output_formatter-fields opt h =
      let fields = resolve_structured_output_fields opt in
      elim (Bool-cases (equal opt.format (codes "json"))) [
        | inl a ↦ rw (new_output_formatter, a) h
        | inr a ↦ elim (Bool-cases (equal opt.format (codes "csv"))) [
          | inl b ↦ rw (new_output_formatter, a, b) h
          | inr b ↦ elim (Bool-cases (not (is_nil opt.fields) || opt.file_events)) [
            | inl c ↦ rw (new_output_formatter, a, b, c) h
            | inr c ↦ rw (new_output_formatter, a, b, c) refl
          ]
        ]
      ]

  lines-SameStarts :
      (f : OutputFormatter) (full_time : Bool) (rows starts : List CommandEvent)
      → any_finalized_only (fields_of f) ≡ false
      → SameStarts rows starts
      → map (format_event format_local csv_line marshal f full_time) rows
        ≡ map (format_event format_local csv_line marshal f full_time) starts
  lines-SameStarts f full_time [] [] h same = refl
  lines-SameStarts f full_time (row ∷ rows) (start ∷ starts) h ((t, d, x, e), same) =
      rw
        (
          e,
          format_event-with_end f full_time start t d x h,
          lines-SameStarts f full_time rows starts h same,
        )
        refl
  lines-SameStarts f full_time [] (start ∷ starts) h same = absurd same
  lines-SameStarts f full_time (row ∷ rows) [] h same = absurd same

  -- A query and a format that do not require end records, on logs that can be read, in which start
  -- records have event ids, no two the same, and each line with the end marker holds an end record if it
  -- can be decoded: the lines that are printed of the rows that the streaming collection returns are
  -- those that are printed of the rows that the joining one returns.
  pub printed-collect_streaming :
      {E : Type 0} (read_lines : Text → Result E (List Text)) (decode : Text → Option CommandEvent)
      (clock : TimeParser) (specs : List Text) (lf : Filter) (opt : OutputOptions)
      (log_paths lines : List Text) (limit : ℤ)
      → build clock specs ≡ ok lf
      → requires_command_end_processing lf opt ≡ false
      → all_lines read_lines decode log_paths ≡ ok lines
      → MarkedEnds decode lines
      → StartsDistinct (decoded read_lines decode lines)
      → let print =
          map
            (format_event format_local csv_line marshal (new_output_formatter opt) opt.full_time) in
        (joined starts : List CommandEvent) × (left : JoinState) × (collect_with_join read_lines
            decode log_paths limit lf []
          ≡ ok (joined, left))
        × (collect_streaming read_lines decode log_paths limit lf ≡ ok starts)
        × (print starts ≡ print joined)
  unfolding requires_command_end_processing
  printed-collect_streaming read_lines decode clock specs lf opt log_paths lines limit built
        needless read marked distinct =
      let needs : lf.needs_finalized_command ≡ false = ground arith in
      let unneeded : any_finalized_only (resolve_structured_output_fields opt) ≡ false =
        ground arith in
      let (joined, starts, left, j, s, same) =
        collect_streaming-collect_with_join read_lines decode clock specs lf built needs log_paths
          lines limit read marked distinct in
      (
        joined,
        starts,
        left,
        j,
        s,
        sym (
            lines-SameStarts (new_output_formatter opt) opt.full_time joined starts
              (new_output_formatter-fields opt unneeded) same),
      )
