-- ===== src/Output/Fields.antt =====
-- internal/cli/output_formatter.go: the fields that are printed. The map `seen` is the list of its keys.
pub mod Selected
use prec.Base.{
  ℕ, zero, suc, ◌+◌, ◌-◌, ◌*◌, ◌/◌, ◌%◌, ◌^◌, ◌≤◌, ◌<◌, min, String, ◌≡◌, refl, sym, ap, ap₂, ◌∙◌,
  ◌≡⟨◌⟩◌, ◌∎, ◌≢◌, ◌↔◌, ◌⊎◌, inl, inr, Bool, true, false, not, ◌&&◌, ◌||◌, Option, none, some, List,
  [], ◌∷◌, ◌++◌, map, append-nil, append_assoc, arith, ltb, leb, ◌==◌, if◌then◌else◌, Bool-cases,
  Option-cases, ==_iff, ltb→lt, lt→ltb, leb→le, tests, length, get_elem?, get_or, set, take, drop,
  replicate, length-append, ℤ, pos, negsuc, pos_part, neg_part, ltb_ℤ, leb_ℤ, eqb_ℤ, ◌≤ℤ◌,
  eqb_ℤ_iff, Result, ok, err, ◌>>=◌, bind-eq-ok, map_result, Result-cases, ok_injective,
  bind_ok-eq-err,
}
use prec.Base.{Every}
use prec.Text.{Text, codes, is_empty, equal, equal_iff, one_of, split, trim_space}

-- `isSupportedOutputField`
abbrev supported_fields : List Text
supported_fields =
    codes "timestamp"
    ∷ codes "end_timestamp"
    ∷ codes "event_id"
    ∷ codes "command"
    ∷ codes "uid"
    ∷ codes "gid"
    ∷ codes "auid"
    ∷ codes "session_id"
    ∷ codes "user"
    ∷ codes "group"
    ∷ codes "pid"
    ∷ codes "ppid"
    ∷ codes "comm"
    ∷ codes "exe"
    ∷ codes "cwd"
    ∷ codes "argv"
    ∷ codes "argc"
    ∷ codes "cgroup"
    ∷ codes "tty"
    ∷ codes "tty_nr"
    ∷ codes "source"
    ∷ codes "record_type"
    ∷ codes "exit_status"
    ∷ codes "duration_ns"
    ∷ codes "duration"
    ∷ codes "exec_errno"
    ∷ codes "exec_error"
    ∷ codes "lost_samples"
    ∷ codes "lost_samples_total"
    ∷ codes "parent_comm"
    ∷ codes "parent_exe"
    ∷ codes "parent_cmdline"
    ∷ codes "parent_tty"
    ∷ codes "parent_tty_nr"
    ∷ codes "file_path"
    ∷ codes "file_fd"
    ∷ codes "file_bytes"
    ∷ codes "file_flags"
    ∷ codes "file_dev"
    ∷ codes "file_ino"
    ∷ []

unfoldable pub is_supported_output_field : Text → Bool
unfolding one_of
is_supported_output_field field = one_of field supported_fields

-- `defaultOutputFields`
abbrev pub default_output_fields : List Text
default_output_fields = codes "timestamp" ∷ codes "user" ∷ codes "group" ∷ codes "command" ∷ []

-- `defaultOutputFieldsForMode`
abbrev pub default_output_fields_for_mode : Bool → List Text
default_output_fields_for_mode file_events =
    if file_events
    then codes "timestamp"
      ∷ codes "user"
      ∷ codes "group"
      ∷ codes "record_type"
      ∷ codes "file_path"
      ∷ codes "file_fd"
      ∷ codes "file_bytes"
      ∷ codes "command"
      ∷ []
    else default_output_fields

-- `allOutputFields`
abbrev pub all_output_fields : List Text
all_output_fields =
    codes "timestamp"
    ∷ codes "user"
    ∷ codes "group"
    ∷ codes "command"
    ∷ codes "end_timestamp"
    ∷ codes "event_id"
    ∷ codes "uid"
    ∷ codes "gid"
    ∷ codes "auid"
    ∷ codes "session_id"
    ∷ codes "pid"
    ∷ codes "ppid"
    ∷ codes "comm"
    ∷ codes "exe"
    ∷ codes "cwd"
    ∷ codes "argv"
    ∷ codes "argc"
    ∷ codes "cgroup"
    ∷ codes "tty"
    ∷ codes "tty_nr"
    ∷ codes "source"
    ∷ codes "record_type"
    ∷ codes "exit_status"
    ∷ codes "duration_ns"
    ∷ codes "duration"
    ∷ codes "exec_errno"
    ∷ codes "exec_error"
    ∷ codes "lost_samples"
    ∷ codes "lost_samples_total"
    ∷ codes "parent_comm"
    ∷ codes "parent_exe"
    ∷ codes "parent_cmdline"
    ∷ codes "parent_tty"
    ∷ codes "parent_tty_nr"
    ∷ codes "file_path"
    ∷ codes "file_fd"
    ∷ codes "file_bytes"
    ∷ codes "file_flags"
    ∷ codes "file_dev"
    ∷ codes "file_ino"
    ∷ []

-- An error of `parseOutputFields`, with the name that it quotes.
pub data FieldsError : Type 0 where
  empty_field_name : FieldsError
  invalid_name : Text → FieldsError

-- `op`: 0, '+' or '-'.
pub data FieldOp : Type 0 where
  listed added removed : FieldOp

-- The variables of the loop of `parseOutputFields`.
pub record Selection : Type 0 where
  pub fields : List Text
  pub seen : List Text
  pub current_op : FieldOp
  pub initialized : Bool

-- The loop that adds fields that have not been seen.
unfoldable pub add_fields : List Text → Selection → Selection
unfolding one_of
add_fields [] s = s
add_fields (field ∷ expanded) s = add_fields expanded (
    if one_of field s.seen
    then s
    else record s { fields = s.fields ++ (field ∷ []); seen = field ∷ s.seen })

-- The fields but one.
unfoldable pub without : Text → List Text → List Text
unfolding equal
without field [] = []
without field (existing ∷ fields) =
    let rest = without field fields in if equal existing field then rest else existing ∷ rest

-- The loop that removes fields that have been seen.
unfoldable pub remove_fields : List Text → Selection → Selection
unfolding one_of without
remove_fields [] s = s
remove_fields (field ∷ expanded) s = remove_fields expanded (
    if not (one_of field s.seen)
    then s
    else record s { fields = without field s.fields; seen = without field s.seen })

-- `initExplicit`
abbrev pub init_explicit : Selection → Selection
init_explicit s =
    if s.initialized then s else record s { fields = []; seen = []; initialized = true }

-- `initDefault`
abbrev pub init_default : Selection → Selection
init_default s =
    if s.initialized
    then s
    else (let fields = s.fields ++ default_output_fields in
        record s { fields = fields; seen = fields; initialized = true })

-- One token with its operation.
unfoldable pub apply_op : FieldOp → List Text → Selection → Selection
unfolding add_fields remove_fields
apply_op listed expanded s = add_fields expanded (init_explicit s)
apply_op added expanded s = add_fields expanded (init_default s)
apply_op removed expanded s = remove_fields expanded (init_default s)

-- The fields that a name stands for.
unfoldable pub expand_field : Text → Result FieldsError (List Text)
unfolding equal is_supported_output_field
expand_field field =
    if equal field (codes "all")
    then ok all_output_fields
    else if not (is_supported_output_field field)
    then err (invalid_name field)
    else ok (field ∷ [])

-- The operation of a token and its name.
unfoldable pub read_token : FieldOp → Text → Result FieldsError (FieldOp × Text)
unfolding trim_space
read_token current [] = err empty_field_name
read_token current (c ∷ token) =
    if c == b'+' || c == b'-'
    then (if is_empty (trim_space token)
        then err empty_field_name
        else ok ((if c == b'+' then added else removed), trim_space token))
    else ok (current, c ∷ token)

-- One round of the loop.
unfoldable pub select_field : Text → Selection → Result FieldsError Selection
unfolding read_token expand_field apply_op trim_space
select_field raw s = read_token s.current_op (trim_space raw) >>= λ read.
    expand_field read.1 >>= λ expanded.
    ok (apply_op read.0 expanded (record s { current_op = read.0 }))

unfoldable pub select_fields : List Text → Selection → Result FieldsError Selection
unfolding select_field
select_fields [] s = ok s
select_fields (raw ∷ raw_fields) s = select_field raw s >>= λ s'. select_fields raw_fields s'

-- `parseOutputFields`
unfoldable pub parse_output_fields : Text → Result FieldsError (List Text)
unfolding select_fields split
parse_output_fields spec =
    if is_empty spec
    then ok []
    else (select_fields (split spec (codes ","))
          (record { fields = []; seen = []; current_op = listed; initialized = false })
        >>= λ s. ok s.fields)
