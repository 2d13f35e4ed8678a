-- ===== src/Collector/Written.antt =====
-- internal/collector/collector_linux.go: the events of files that are written to.
use prec.Base.{
  ℕ, ◌-◌, Bool, not, ◌&&◌, ◌||◌, Option, none, some, ltb, leb, ◌==◌, if◌then◌else◌, ℤ, pos, leb_ℤ,
}
use prec.Text.{Text}
use prec.Event.{CommandEvent}
use prec.Event.Build.{build_file_save_event}
use prec.Collector.{FileIdentity, OpenFileState, Service, Settings, World, IoAttempt}
use prec.Collector.Attempts.{take_io_attempt}
use prec.Collector.Paths.{should_track_file_path, should_drop_precd_self_log_write}
use prec.Collector.Saves.{should_suppress_duplicate_file_save}
use prec.Collector.Open.{
  set_file_identity, is_descriptor, resolve_regular_file, put_open, build_file_base_event,
}
use prec.Collector.Process.{is_some, or_stamp}

-- `fileIdentityCheckInterval`, in nanoseconds.
abbrev file_identity_check_interval : ℕ
file_identity_check_interval = 1000000000

-- `needsIdentityCheck`
unfoldable needs_identity_check : OpenFileState → ℕ → Bool
needs_identity_check state mono =
    is_some state.identity
    && not (mono == 0)
    && (state.last_identity_check_mono == 0
        || ltb mono state.last_identity_check_mono
        || leb file_identity_check_interval (mono - state.last_identity_check_mono))

-- The path that is kept, if it needs no check.
unfoldable pub known_path : ℕ → Option OpenFileState → Option (Text × FileIdentity)
unfolding needs_identity_check should_track_file_path
known_path mono none = none
known_path mono (some state) =
    if should_track_file_path state.event.file_path && not (needs_identity_check state mono)
    then some (state.event.file_path, state.identity)
    else none

-- The state with what /proc says, if it had an identity.
unfoldable pub refreshed :
    ℕ → ℤ → ℕ → Text → FileIdentity → Option OpenFileState → Service → Service
unfolding set_file_identity
refreshed tgid fd mono path identity none s = s
refreshed tgid fd mono path identity (some state) s =
    if not (is_some state.identity)
    then s
    else put_open tgid fd
        (record {
          event = set_file_identity (record (state.event) { file_path = path }) identity;
          identity = identity;
          last_identity_check_mono = mono;
        })
        s

-- `resolveTrackedRegularFilePath`
unfoldable pub resolve_tracked_regular_file_path :
    World → ℕ → ℤ → ℕ → Service → Option (Text × FileIdentity) × Service
unfolding known_path resolve_regular_file should_track_file_path refreshed
resolve_tracked_regular_file_path world tgid fd mono s =
    let state = s.files.open_files tgid fd in
    if not (is_descriptor tgid fd) then (none, s) else elim (known_path mono state) [
      | some known ↦ (some known, s)
      | none ↦ elim (resolve_regular_file world tgid fd) [
        | none ↦ (none, s)
        | some (path, identity) ↦
            if not (should_track_file_path path)
            then (none, s)
            else (some (path, identity), refreshed tgid fd mono path identity state s)
      ]
    ]

module _ (lower_rune : ℕ → ℕ) (settings : Settings) (world : World) where
  -- The end of `buildRegularFileSaveEvent`, with the base event.
  unfoldable pub save_event_of :
      IoAttempt
      → ℤ
      → ℕ
      → Text × FileIdentity
      → CommandEvent
      → Service
      → Option CommandEvent × Service
  unfolding should_drop_precd_self_log_write should_suppress_duplicate_file_save
      build_file_save_event set_file_identity
  save_event_of a bytes_count mono (path, identity) ev s =
      if should_drop_precd_self_log_write lower_rune ev path settings.cfg.log_path
      then (none, s)
      else (let (repeated, files) =
            should_suppress_duplicate_file_save settings.cfg.file_save_dedup_sec a.tgid path mono
              s.files in
          let s' : Service = record s { files = files } in
          if repeated then (none, s') else (
            some (set_file_identity (build_file_save_event ev path a.fd bytes_count) identity),
            s',
          ))

  unfoldable pub save_event_at : IoAttempt → ℤ → ℕ → Text → Service → Option CommandEvent × Service
  unfolding resolve_tracked_regular_file_path build_file_base_event save_event_of
  save_event_at a bytes_count mono timestamp s =
      let (found, s1) = resolve_tracked_regular_file_path world a.tgid a.fd mono s in
      elim found [
        | none ↦ (none, s1)
        | some file ↦
            let (base, s2) =
              build_file_base_event lower_rune settings world a.tgid
                (or_stamp world timestamp a.timestamp) s1 in
            elim base [ none ↦ (none, s2) | some ev ↦ save_event_of a bytes_count mono file ev s2 ]
      ]

  -- `buildRegularFileSaveEvent`
  unfoldable pub save_event : ℕ → ℤ → ℕ → Text → Service → Option CommandEvent × Service
  unfolding take_io_attempt save_event_at
  save_event tid bytes_count mono timestamp s =
      if leb_ℤ bytes_count (pos 0)
      then (none, s)
      else (let (attempt, files) = take_io_attempt tid s.files in
          elim attempt [
            | none ↦ (none, record s { files = files })
            | some a ↦ save_event_at a bytes_count mono timestamp (record s { files = files })
          ])
