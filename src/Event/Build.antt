-- ===== src/Event/Build.antt =====
-- internal/events/event.go: the records that are built from others. The current time, formatted, is
-- the parameter `now`; the daemon's ids and their names are those of `identity`.
use prec.Base.{ℕ, not, Option, none, some, [], ◌∷◌, ltb, if◌then◌else◌, ℤ, pos}
use prec.Text.{Text, codes, is_empty, trim_space}
use prec.Text.Number.{max_int64}
use prec.Event.{CommandEvent, empty_event, source_system}
use prec.Event.RecordType

-- `normalizeTimestamp`
unfoldable pub normalize_timestamp : Text → Text → Text
normalize_timestamp now raw = if not (is_empty (trim_space raw)) then raw else now

-- `BuildCommandEndEvent`
unfoldable pub build_command_end_event : Text → CommandEvent → Text → ℤ → Option ℤ → CommandEvent
unfolding normalize_timestamp
build_command_end_event now start end_timestamp duration_ns exit_status = record empty_event {
  timestamp = normalize_timestamp now end_timestamp;
  event_id = start.event_id;
  pid = start.pid;
  source = start.source;
  record_type = RecordType.end;
  duration_ns = some duration_ns;
  exit_status = exit_status;
}

-- `BuildFileOpenEvent`
unfoldable pub build_file_open_event : CommandEvent → Text → ℤ → ℤ → CommandEvent
build_file_open_event base file_path file_fd file_flags = record base {
  record_type = RecordType.file_open;
  file_path = trim_space file_path;
  file_fd = some file_fd;
  file_flags = some file_flags;
  file_bytes = none;
  file_dev = none;
  file_ino = none;
}

-- `BuildFileSaveEvent`
unfoldable pub build_file_save_event : CommandEvent → Text → ℤ → ℤ → CommandEvent
build_file_save_event base file_path file_fd file_bytes = record base {
  record_type = RecordType.file_save;
  file_path = trim_space file_path;
  file_fd = some file_fd;
  file_bytes = some file_bytes;
  duration_ns = none;
  file_flags = none;
  file_dev = none;
  file_ino = none;
}

-- `saturatingUint64ToInt64`
unfoldable pub saturating_uint64_to_int64 : ℕ → ℤ
saturating_uint64_to_int64 v = if ltb max_int64 v then pos max_int64 else pos v

-- What `os.Geteuid`, `os.Getegid`, `lookupUser` and `lookupGroup` give.
pub record Identity : Type 0 where
  pub uid : ℕ
  pub gid : ℕ
  pub user : Text
  pub group : Text

-- `BuildCollectorLossEvent`
unfoldable pub build_collector_loss_event : Text → Identity → ℕ → ℕ → CommandEvent
unfolding normalize_timestamp saturating_uint64_to_int64
build_collector_loss_event now identity lost total = record empty_event {
  timestamp = normalize_timestamp now [];
  uid = identity.uid;
  gid = identity.gid;
  user = identity.user;
  group = identity.group;
  comm = codes "precd";
  exe = codes "precd";
  argv = codes "precd" ∷ codes "loss" ∷ [];
  argc = pos 2;
  source = source_system;
  record_type = RecordType.loss;
  lost_samples = some (saturating_uint64_to_int64 lost);
  lost_total = some (saturating_uint64_to_int64 total);
}
