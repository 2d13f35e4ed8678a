-- ===== src/Output/Values.antt =====
-- internal/cli/output_formatter.go: what is printed for a field. `format_local` is `time.Parse` of a
-- timestamp followed by `Format("2006-01-02 15:04:05")`; `none` is an error of `time.Parse`.
use prec.Base.{ℕ, suc, Bool, Option, none, some, List, [], ◌∷◌, if◌then◌else◌, ℤ, pos, negsuc}
use prec.Text.{Text, codes, is_empty, switch, join}
use prec.Text.Number.{decimal}
use prec.Event.{CommandEvent}
use prec.Event.RecordType
use prec.Query.Duration.{format_duration_value}

-- The values of `outputFieldValue`: `nil`, a string, a `[]string`, or a number.
pub data OutputValue : Type 0 where
  absent : OutputValue
  text : Text → OutputValue
  texts : List Text → OutputValue
  number : ℤ → OutputValue

abbrev optional : Option ℤ → OutputValue
optional none = absent
optional (some n) = number n

abbrev optional_natural : Option ℕ → OutputValue
optional_natural none = absent
optional_natural (some n) = number (pos n)

-- `strconv.FormatInt` and `strconv.FormatUint` in base 10.
unfoldable format_int : ℤ → Text
unfolding decimal
format_int (pos n) = decimal n
format_int (negsuc n) = b'-' ∷ decimal (suc n)

-- `commandText`
unfoldable pub command_text : CommandEvent → Text
unfolding join
command_text ev =
    let joined = join ev.argv (codes " ") in
    let or_exe = if is_empty joined then ev.exe else joined in
    if is_empty or_exe then ev.comm else or_exe

module _ (format_local : Text → Option Text) where
  -- `formatTimestamp`
  unfoldable pub format_timestamp : Text → Bool → Text
  format_timestamp raw full_time =
      if is_empty raw
      then []
      else if full_time
      then raw
      else elim (format_local raw) [ none ↦ raw | some shown ↦ shown ]

  -- The cases of `outputFieldValue`.
  abbrev value_table : CommandEvent → Bool → List (Text × OutputValue)
  value_table ev full_time =
      (codes "timestamp", text (format_timestamp ev.timestamp full_time))
      ∷ (codes "end_timestamp", text (format_timestamp ev.end_timestamp full_time))
      ∷ (codes "event_id", text ev.event_id)
      ∷ (codes "command", text (command_text ev))
      ∷ (codes "uid", number (pos ev.uid))
      ∷ (codes "gid", number (pos ev.gid))
      ∷ (codes "auid", optional_natural ev.auid)
      ∷ (codes "session_id", optional_natural ev.session_id)
      ∷ (codes "user", text ev.user)
      ∷ (codes "group", text ev.group)
      ∷ (codes "pid", number ev.pid)
      ∷ (codes "ppid", number ev.ppid)
      ∷ (codes "comm", text ev.comm)
      ∷ (codes "exe", text ev.exe)
      ∷ (codes "cwd", text ev.cwd)
      ∷ (codes "argv", texts ev.argv)
      ∷ (codes "argc", number ev.argc)
      ∷ (codes "cgroup", text ev.cgroup)
      ∷ (codes "tty", text ev.tty)
      ∷ (codes "tty_nr", number ev.tty_nr)
      ∷ (codes "source", text ev.source)
      ∷ (
        codes "record_type",
        text (if is_empty ev.record_type then RecordType.command else ev.record_type),
      )
      ∷ (codes "exit_status", optional ev.exit_status)
      ∷ (codes "duration_ns", optional ev.duration_ns)
      ∷ (codes "duration", text (format_duration_value ev.duration_ns))
      ∷ (codes "exec_errno", optional ev.exec_errno)
      ∷ (codes "exec_error", text ev.exec_error)
      ∷ (codes "lost_samples", optional ev.lost_samples)
      ∷ (codes "lost_samples_total", optional ev.lost_total)
      ∷ (codes "parent_comm", text ev.parent_comm)
      ∷ (codes "parent_exe", text ev.parent_exe)
      ∷ (codes "parent_cmdline", text ev.parent_cmdline)
      ∷ (codes "parent_tty", text ev.parent_tty)
      ∷ (codes "parent_tty_nr", number ev.parent_tty_nr)
      ∷ (codes "file_path", text ev.file_path)
      ∷ (codes "file_fd", optional ev.file_fd)
      ∷ (codes "file_bytes", optional ev.file_bytes)
      ∷ (codes "file_flags", optional ev.file_flags)
      ∷ (codes "file_dev", optional_natural ev.file_dev)
      ∷ (codes "file_ino", optional_natural ev.file_ino)
      ∷ []

  -- `outputFieldValue`
  unfoldable pub output_field_value : Text → CommandEvent → Bool → OutputValue
  unfolding switch format_timestamp command_text format_duration_value
  output_field_value field ev full_time = switch field (value_table ev full_time) (text [])

-- `formatOutputFieldValue` of a value.
unfoldable pub format_value : OutputValue → Text
unfolding format_int join
format_value absent = []
format_value (text val) = val
format_value (texts val) = join val (codes " ")
format_value (number val) = format_int val
