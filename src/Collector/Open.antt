-- ===== src/Collector/Open.antt =====
-- internal/collector/collector_linux.go: the files that processes have open, and the events of files
-- that are opened and written. `world` answers alike for one descriptor while one sample is handled.
use prec.Base.{
  ℕ, Bool, not, ◌&&◌, ◌||◌, Option, none, some, [], ◌==◌, if◌then◌else◌, ℤ, pos, negsuc, ltb_ℤ,
  eqb_ℤ,
}
use prec.Text.{Text, is_empty, trim_space}
use prec.Event.{CommandEvent}
use prec.Event.RecordType
use prec.Event.Build.{build_file_open_event}
use prec.Event.Source.{classify_file_event_source}
use prec.Collector.{
  FileOpenAttempt, DupAttempt, FileIdentity, OpenFileState, Service, Settings, World,
}
use prec.Collector.Attempts.{take_file_open_attempt, take_dup_attempt}
use prec.Collector.Paths.{normalize_file_path, should_emit_file_open_event, should_track_file_path}
use prec.Collector.Lost.{next_event_id}
use prec.Collector.Process.{or_stamp}

-- `setFileIdentity`
unfoldable pub set_file_identity : CommandEvent → FileIdentity → CommandEvent
set_file_identity ev none = ev
set_file_identity ev (some (dev, ino)) = record ev { file_dev = some dev; file_ino = some ino }

-- `fileIdentityFromEvent`
abbrev identity_of_parts : Option ℕ → Option ℕ → FileIdentity
identity_of_parts (some dev) (some ino) = some (dev, ino)
identity_of_parts _ _ = none

unfoldable file_identity_from_event : CommandEvent → FileIdentity
file_identity_from_event ev = identity_of_parts ev.file_dev ev.file_ino

-- A descriptor that stands for a file of the process; `unix.AT_FDCWD` is negative.
abbrev pub is_descriptor : ℕ → ℤ → Bool
is_descriptor tgid fd = not (tgid == 0) && not (ltb_ℤ fd (pos 0))

-- `resolveProcessFDPath`
unfoldable pub resolve_process_fd_path : World → ℕ → ℤ → Text
unfolding trim_space
resolve_process_fd_path world tgid fd =
    if is_descriptor tgid fd then trim_space (world.fd_link tgid fd) else []

-- `resolveRegularFile`
unfoldable pub resolve_regular_file : World → ℕ → ℤ → Option (Text × FileIdentity)
unfolding trim_space
resolve_regular_file world tgid fd =
    if is_descriptor tgid fd
    then elim (world.regular_file tgid fd) [
      | none ↦ none
      | some (target, identity) ↦ some (trim_space target, identity)
    ]
    else none

-- What `buildFileBaseEvent` makes of the start event of a process.
abbrev file_base_of : CommandEvent → Text → Text → CommandEvent
file_base_of base timestamp event_id = record base {
  timestamp = if is_empty (trim_space timestamp) then base.timestamp else timestamp;
  event_id = event_id;
  record_type = RecordType.start;
  end_timestamp = [];
  exit_status = none;
  duration_ns = none;
  exec_errno = none;
  exec_error = [];
  lost_samples = none;
  lost_total = none;
  file_path = [];
  file_fd = none;
  file_bytes = none;
  file_flags = none;
  file_dev = none;
  file_ino = none;
}

abbrev pub put_open : ℕ → ℤ → OpenFileState → Service → Service
put_open tgid fd state s = record s {
  files = record (s.files) {
    open_files = λ t d. if t == tgid && eqb_ℤ d fd then some state else s.files.open_files t d;
  };
}

-- What `buildFileOpenEvent` returns: an error, no event, or an event.
pub data Opened : Type 0 where
  failed passed_over : Opened
  opened : CommandEvent → Opened

module _ (lower_rune : ℕ → ℕ) (settings : Settings) (world : World) where
  abbrev with_file_source : CommandEvent → CommandEvent
  with_file_source ev = record ev { source = classify_file_event_source lower_rune ev }

  -- `buildFileBaseEvent`; `none` is an error.
  unfoldable pub build_file_base_event : ℕ → Text → Service → Option CommandEvent × Service
  unfolding next_event_id classify_file_event_source
  build_file_base_event tgid timestamp s =
      let (event_id, s') = next_event_id settings s in
      elim (s.processes.pending_events tgid) [
        | some base ↦ (some (with_file_source (file_base_of base timestamp event_id)), s')
        | none ↦ elim (world.build_start_event tgid [] timestamp event_id) [
          | none ↦ (none, s')
          | some ev ↦ (some (with_file_source ev), s')
        ]
      ]

  abbrev pub identity_at : ℕ → ℤ → FileIdentity
  identity_at tgid fd = elim (resolve_regular_file world tgid fd) [
    | none ↦ none
    | some (_, identity) ↦ identity
  ]

  -- The checks of `buildFileOpenEvent` once the base event is there.
  unfoldable pub open_event_of : FileOpenAttempt → ℤ → CommandEvent → Opened
  unfolding normalize_file_path resolve_process_fd_path should_emit_file_open_event
      should_track_file_path build_file_open_event set_file_identity resolve_regular_file
  open_event_of attempt fd ev =
      let path =
        normalize_file_path attempt.filename ev.cwd
          (resolve_process_fd_path world attempt.tgid attempt.dirfd)
          (not (eqb_ℤ attempt.dirfd (negsuc 99))) in
      if not (should_emit_file_open_event attempt.flags settings.capture_read_opens)
      then passed_over
      else if not (should_track_file_path path)
      then passed_over
      else opened (
          set_file_identity (build_file_open_event ev path fd attempt.flags)
            (identity_at attempt.tgid fd))

  -- `buildFileOpenEvent`
  unfoldable pub open_event : ℕ → ℤ → Text → Service → Opened × Service
  unfolding take_file_open_attempt build_file_base_event open_event_of
  open_event tid fd timestamp s =
      let (attempt, files) = take_file_open_attempt tid s.files in
      elim attempt [
        | none ↦ (passed_over, record s { files = files })
        | some a ↦
            let (found, s') =
              build_file_base_event a.tgid (or_stamp world timestamp a.timestamp)
                (record s { files = files }) in
            elim found [ none ↦ (failed, s') | some ev ↦ (open_event_of a fd ev, s') ]
      ]

  -- `rememberOpenFile`
  unfoldable pub remember_open_file : ℕ → ℤ → CommandEvent → Service → Service
  unfolding file_identity_from_event
  remember_open_file tgid fd ev s =
      if not (is_descriptor tgid fd)
      then s
      else put_open tgid fd
          (record {
            event = ev;
            identity = file_identity_from_event ev;
            last_identity_check_mono = 0;
          })
          s

  -- The state of a file that is open already, by what /proc says of its descriptor.
  unfoldable pub open_state_at : ℕ → ℤ → Text → Service → Option OpenFileState × Service
  unfolding resolve_regular_file build_file_base_event build_file_open_event set_file_identity
  open_state_at tgid fd timestamp s = elim (resolve_regular_file world tgid fd) [
    | none ↦ (none, s)
    | some (path, identity) ↦
        let (found, s') = build_file_base_event tgid timestamp s in
        elim found [
          | none ↦ (none, s')
          | some ev ↦ (
            some (record {
              event = set_file_identity (build_file_open_event ev path fd (pos 0)) identity;
              identity = identity;
              last_identity_check_mono = 0;
            }),
            s',
          )
        ]
  ]

  abbrev put_if : ℕ → ℤ → Option OpenFileState × Service → Service
  put_if tgid fd (none, s) = s
  put_if tgid fd (some state, s) = put_open tgid fd state s

  -- `rememberOpenFileFallback`
  unfoldable pub remember_open_file_fallback : ℕ → ℤ → Text → Service → Service
  unfolding open_state_at
  remember_open_file_fallback tgid fd timestamp s =
      if not (is_descriptor tgid fd) then s else put_if tgid fd (open_state_at tgid fd timestamp s)

  -- `rememberDuplicatedFile` for an attempt.
  unfoldable pub duplicate : DupAttempt → Service → Service
  unfolding open_state_at
  duplicate a s =
      if a.tgid == 0 || ltb_ℤ a.oldfd (pos 0) || ltb_ℤ a.newfd (pos 0)
      then s
      else elim (s.files.open_files a.tgid a.oldfd) [
        | some state ↦ put_open a.tgid a.newfd state s
        | none ↦ put_if a.tgid a.newfd (open_state_at a.tgid a.oldfd [] s)
      ]

  -- `rememberDuplicatedFile`
  unfoldable pub remember_duplicated_file : ℕ → Service → Service
  unfolding take_dup_attempt duplicate
  remember_duplicated_file tid s =
      let (attempt, files) = take_dup_attempt tid s.files in
      elim attempt [
        | none ↦ record s { files = files }
        | some a ↦ duplicate a (record s { files = files })
      ]
