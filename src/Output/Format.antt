-- ===== src/Output/Format.antt =====
-- internal/cli/output_formatter.go: the formatters. `csv_line` is `csvRecordLine`, which calls
-- encoding/csv, and `marshal` is `json.Marshal` of a map; `none` is an error of theirs.
pub mod StartView
use prec.Base.{
  ℕ, zero, suc, ◌+◌, ◌-◌, ◌*◌, ◌/◌, ◌%◌, ◌^◌, ◌≤◌, ◌<◌, min, String, ◌≡◌, refl, sym, ap, ap₂, ◌∙◌,
  ◌≡⟨◌⟩◌, ◌∎, ◌≢◌, ◌↔◌, ◌⊎◌, inl, inr, Bool, true, false, not, ◌&&◌, ◌||◌, Option, none, some, List,
  [], ◌∷◌, ◌++◌, map, append-nil, append_assoc, arith, ltb, leb, ◌==◌, if◌then◌else◌, Bool-cases,
  Option-cases, ==_iff, ltb→lt, lt→ltb, leb→le, tests, length, get_elem?, get_or, set, take, drop,
  replicate, length-append, ℤ, pos, negsuc, pos_part, neg_part, ltb_ℤ, leb_ℤ, eqb_ℤ, ◌≤ℤ◌,
  eqb_ℤ_iff, Result, ok, err, ◌>>=◌, bind-eq-ok, map_result, Result-cases, ok_injective,
  bind_ok-eq-err,
}
use prec.Text.{Text, codes, is_empty, equal, one_of, join}
use prec.Event.{CommandEvent}
use prec.Query.Filter.{Filter}
use prec.Output.Sanitize.{sanitize_terminal_text}
use prec.Output.Fields.{default_output_fields_for_mode}
use prec.Output.Values.{
  OutputValue, absent, text, texts, number, command_text, format_timestamp, output_field_value,
  format_value,
}

-- `outputOptions`
pub record OutputOptions : Type 0 where
  pub tree : Bool
  pub format : Text
  pub full_time : Bool
  pub file_events : Bool
  pub fields : List Text

-- `outputFormatter`, with the fields that each kind has.
pub data OutputFormatter : Type 0 where
  simple_text : OutputFormatter
  structured_text json csv : List Text → OutputFormatter

-- `resolveStructuredOutputFields`
unfoldable pub resolve_structured_output_fields : OutputOptions → List Text
resolve_structured_output_fields opt = elim opt.fields [
  | [] ↦ default_output_fields_for_mode opt.file_events
  | field ∷ fields ↦ field ∷ fields
]

abbrev pub is_nil : List Text → Bool
is_nil [] = true
is_nil (field ∷ fields) = false

-- `newOutputFormatter`
unfoldable pub new_output_formatter : OutputOptions → OutputFormatter
unfolding resolve_structured_output_fields equal
new_output_formatter opt =
    let fields = resolve_structured_output_fields opt in
    if equal opt.format (codes "json")
    then json fields
    else if equal opt.format (codes "csv")
    then csv fields
    else if not (is_nil opt.fields) || opt.file_events
    then structured_text fields
    else simple_text

-- `isFinalizedOnlyOutputField`
unfoldable pub is_finalized_only_output_field : Text → Bool
unfolding one_of
is_finalized_only_output_field field =
    one_of field
      (codes "end_timestamp" ∷ codes "exit_status" ∷ codes "duration_ns" ∷ codes "duration" ∷ [])

abbrev pub any_finalized_only : List Text → Bool
any_finalized_only [] = false
any_finalized_only (field ∷ fields) =
    is_finalized_only_output_field field || any_finalized_only fields

-- `requiresCommandEndProcessing`
unfoldable pub requires_command_end_processing : Filter → OutputOptions → Bool
unfolding is_finalized_only_output_field resolve_structured_output_fields
requires_command_end_processing lf opt =
    if lf.needs_finalized_command
    then true
    else any_finalized_only (resolve_structured_output_fields opt)

-- The values that are not empty once they are sanitized.
unfoldable compacted : List Text → List Text
unfolding sanitize_terminal_text
compacted [] = []
compacted (value ∷ values) =
    let rest = compacted values in
    let clean_value = sanitize_terminal_text value in
    if is_empty clean_value then rest else clean_value ∷ rest

unfoldable sanitize_all : List Text → List Text
unfolding sanitize_terminal_text
sanitize_all [] = []
sanitize_all (value ∷ values) = sanitize_terminal_text value ∷ sanitize_all values

-- Whether `jsonRecord` leaves a value out.
abbrev is_left_out : Text → OutputValue → Bool
is_left_out field absent = true
is_left_out field (text val) = equal field (codes "file_path") && is_empty val
is_left_out field _ = false

abbrev or_dash : Text → Text
or_dash name = if is_empty name then codes "-" else name

abbrev or_nothing : Option Text → Text
or_nothing none = []
or_nothing (some line) = line

module _ (format_local : Text → Option Text) (csv_line : List Text → Option Text)
    (marshal : List (Text × OutputValue) → Option Text) where
  -- `csvRecord`
  unfoldable pub csv_record : CommandEvent → Bool → List Text → List Text
  unfolding output_field_value format_value
  csv_record ev full_time [] = []
  csv_record ev full_time (field ∷ fields) =
      format_value (output_field_value format_local field ev full_time)
      ∷ csv_record ev full_time fields

  -- `jsonRecord`
  unfoldable pub json_record : CommandEvent → Bool → List Text → List (Text × OutputValue)
  unfolding output_field_value equal
  json_record ev full_time [] = []
  json_record ev full_time (field ∷ fields) =
      let rest = json_record ev full_time fields in
      let value = output_field_value format_local field ev full_time in
      if is_left_out field value then rest else (field, value) ∷ rest

  -- `formatEventSimple`
  unfoldable pub format_event_simple : CommandEvent → Bool → Text
  unfolding sanitize_terminal_text format_timestamp command_text
  format_event_simple ev full_time =
      sanitize_terminal_text (format_timestamp format_local ev.timestamp full_time)
      ++ (b' ' ∷ sanitize_terminal_text (or_dash ev.user)
          ++ (b' ' ∷ sanitize_terminal_text (or_dash ev.group)
              ++ (b' ' ∷ sanitize_terminal_text (command_text ev))))

  -- `Format`
  unfoldable pub format_event : OutputFormatter → Bool → CommandEvent → Text
  unfolding format_event_simple csv_record json_record compacted sanitize_all join
  format_event simple_text full_time ev = format_event_simple ev full_time
  format_event (structured_text fields) full_time ev =
      join (compacted (csv_record ev full_time fields)) (codes " ")
  format_event (json fields) full_time ev = or_nothing (marshal (json_record ev full_time fields))
  format_event (csv fields) full_time ev =
      or_nothing (csv_line (sanitize_all (csv_record ev full_time fields)))

  -- `Header`
  unfoldable header : OutputFormatter → Text
  header (csv fields) = or_nothing (csv_line fields)
  header _ = []
