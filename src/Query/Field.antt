-- ===== src/Query/Field.antt =====
-- internal/query/filter.go: the fields of an event that a query can name, with their types and
-- values. A Go `switch` on a name is a table here. `timeValue` takes `time.Parse` as a parameter.
use prec.Base.{ℕ, Bool, Option, none, some, List, [], ◌∷◌, ltb, if◌then◌else◌, ℤ, pos}
use prec.Text.{Text, codes, is_empty, one_of, switch, join}
use prec.Text.Number.{max_int64}
use prec.Event.{CommandEvent}
use prec.Event.RecordType

-- `fieldTypeString`, ...
pub data FieldType : Type 0 where
  string number time array duration : FieldType

abbrev number_fields : List Text
number_fields =
    codes "uid"
    ∷ codes "gid"
    ∷ codes "auid"
    ∷ codes "session_id"
    ∷ codes "pid"
    ∷ codes "ppid"
    ∷ codes "argc"
    ∷ codes "tty_nr"
    ∷ codes "exit_status"
    ∷ codes "duration_ns"
    ∷ codes "exec_errno"
    ∷ codes "lost_samples"
    ∷ codes "lost_samples_total"
    ∷ codes "parent_tty_nr"
    ∷ codes "file_fd"
    ∷ codes "file_bytes"
    ∷ codes "file_flags"
    ∷ codes "file_dev"
    ∷ codes "file_ino"
    ∷ []

abbrev event_fields : List Text
event_fields =
    codes "timestamp"
    ∷ codes "end_timestamp"
    ∷ codes "event_id"
    ∷ codes "uid"
    ∷ codes "gid"
    ∷ codes "auid"
    ∷ codes "session_id"
    ∷ codes "user"
    ∷ codes "group"
    ∷ codes "pid"
    ∷ codes "ppid"
    ∷ codes "comm"
    ∷ codes "exe"
    ∷ codes "cwd"
    ∷ codes "argv"
    ∷ codes "argc"
    ∷ codes "cgroup"
    ∷ codes "tty"
    ∷ codes "tty_nr"
    ∷ codes "source"
    ∷ codes "record_type"
    ∷ codes "exit_status"
    ∷ codes "duration_ns"
    ∷ codes "exec_errno"
    ∷ codes "exec_error"
    ∷ codes "lost_samples"
    ∷ codes "lost_samples_total"
    ∷ codes "parent_comm"
    ∷ codes "parent_exe"
    ∷ codes "parent_cmdline"
    ∷ codes "parent_tty"
    ∷ codes "parent_tty_nr"
    ∷ codes "file_path"
    ∷ codes "file_fd"
    ∷ codes "file_bytes"
    ∷ codes "file_flags"
    ∷ codes "file_dev"
    ∷ codes "file_ino"
    ∷ []

-- `hasCommandEventField`
unfoldable has_command_event_field : Text → Bool
unfolding one_of
has_command_event_field key = one_of key event_fields

-- `fieldTypeFor`; `none` is an unknown field.
unfoldable pub field_type_for : Text → Option FieldType
unfolding one_of has_command_event_field
field_type_for field =
    if one_of field number_fields
    then some number
    else if one_of field (codes "timestamp" ∷ codes "end_timestamp" ∷ [])
    then some time
    else if one_of field (codes "duration" ∷ [])
    then some duration
    else if one_of field (codes "argv" ∷ [])
    then some array
    else if one_of field (codes "command" ∷ codes "record_type" ∷ [])
    then some string
    else if has_command_event_field field
    then some string
    else none

-- `isFinalizedOnlyField`
unfoldable pub is_finalized_only_field : Text → Bool
unfolding one_of
is_finalized_only_field field =
    one_of field (codes "end_timestamp" ∷ codes "exit_status" ∷ codes "duration_ns" ∷ [])

abbrev of_ℕ : Option ℕ → Option ℤ
of_ℕ none = none
of_ℕ (some n) = some (pos n)

-- A uint64 that an int64 cannot hold has no value.
abbrev fitting : Option ℕ → Option ℤ
fitting none = none
fitting (some n) = if ltb max_int64 n then none else some (pos n)

abbrev numeric_table : CommandEvent → List (Text × Option ℤ)
numeric_table ev =
    (codes "uid", some (pos ev.uid))
    ∷ (codes "gid", some (pos ev.gid))
    ∷ (codes "auid", of_ℕ ev.auid)
    ∷ (codes "session_id", of_ℕ ev.session_id)
    ∷ (codes "pid", some ev.pid)
    ∷ (codes "ppid", some ev.ppid)
    ∷ (codes "argc", some ev.argc)
    ∷ (codes "tty_nr", some ev.tty_nr)
    ∷ (codes "exit_status", ev.exit_status)
    ∷ (codes "duration_ns", ev.duration_ns)
    ∷ (codes "exec_errno", ev.exec_errno)
    ∷ (codes "lost_samples", ev.lost_samples)
    ∷ (codes "lost_samples_total", ev.lost_total)
    ∷ (codes "parent_tty_nr", some ev.parent_tty_nr)
    ∷ (codes "file_fd", ev.file_fd)
    ∷ (codes "file_bytes", ev.file_bytes)
    ∷ (codes "file_flags", ev.file_flags)
    ∷ (codes "file_dev", fitting ev.file_dev)
    ∷ (codes "file_ino", fitting ev.file_ino)
    ∷ []

-- `numericValue`; `none` is `0, false`.
unfoldable pub numeric_value : Text → CommandEvent → Option ℤ
unfolding switch
numeric_value field ev = switch field (numeric_table ev) none

-- `durationValue`
unfoldable pub duration_value : Text → CommandEvent → Option ℤ
unfolding switch
duration_value field ev = switch field ((codes "duration", ev.duration_ns) ∷ []) none

abbrev string_table : CommandEvent → List (Text × Option Text)
string_table ev =
    (codes "event_id", some ev.event_id)
    ∷ (codes "user", some ev.user)
    ∷ (codes "group", some ev.group)
    ∷ (codes "comm", some ev.comm)
    ∷ (codes "exe", some ev.exe)
    ∷ (codes "cwd", some ev.cwd)
    ∷ (codes "cgroup", some ev.cgroup)
    ∷ (codes "tty", some ev.tty)
    ∷ (codes "source", some ev.source)
    ∷ (codes "exec_error", some ev.exec_error)
    ∷ (codes "parent_comm", some ev.parent_comm)
    ∷ (codes "parent_exe", some ev.parent_exe)
    ∷ (codes "parent_cmdline", some ev.parent_cmdline)
    ∷ (codes "parent_tty", some ev.parent_tty)
    ∷ (codes "file_path", some ev.file_path)
    ∷ []

-- `commandEventFieldStringValue`
unfoldable command_event_field_string_value : Text → CommandEvent → Option Text
unfolding switch
command_event_field_string_value key ev = switch key (string_table ev) none

-- `commandText`
unfoldable command_text : CommandEvent → Text
unfolding join
command_text ev =
    let joined = join ev.argv (codes " ") in
    let or_exe = if is_empty joined then ev.exe else joined in
    if is_empty or_exe then ev.comm else or_exe

-- `stringValue`
unfoldable pub string_value : Text → CommandEvent → Text
unfolding switch command_text command_event_field_string_value
string_value field ev =
    switch field
      ((codes "command", command_text ev)
        ∷ (
          codes "record_type",
          if is_empty ev.record_type then RecordType.command else ev.record_type,
        )
        ∷ [])
      (elim (command_event_field_string_value field ev) [ some val ↦ val | none ↦ [] ])

-- `time.Parse` at the layouts RFC3339Nano and RFC3339: the instant, in nanoseconds from a fixed one,
-- or `none` for an error.
pub record TimeParser : Type 0 where
  pub rfc3339_nano : Text → Option ℤ
  pub rfc3339 : Text → Option ℤ

-- `timeValue`, with `parseEventTimestamp`
unfoldable pub time_value : TimeParser → Text → CommandEvent → Option ℤ
unfolding switch
time_value clock field ev =
    switch field
      ((codes "timestamp", clock.rfc3339_nano ev.timestamp)
        ∷ (codes "end_timestamp", clock.rfc3339_nano ev.end_timestamp)
        ∷ [])
      none

-- `parseQueryTime`
unfoldable pub parse_query_time : TimeParser → Text → Option ℤ
parse_query_time clock raw = elim (clock.rfc3339_nano raw) [
  | some t ↦ some t
  | none ↦ clock.rfc3339 raw
]
