-- ===== src/Event.antt =====
-- internal/events: the record of one JSONL line (event.go), its constants (source.go) and the
-- builders of records (event.go). A Go pointer field is an `Option`; the events
-- never share one through two names that are written, so values suffice. `UID`, `PID` and the
-- other machine integers are kept as integers, and their ranges are hypotheses where they matter.
pub mod RecordType
pub mod Source
pub mod Build
use prec.Base.{ℕ, Option, none, List, [], ℤ, pos}
use prec.Text.{Text, codes}

-- `CommandEvent`
pub record CommandEvent : Type 0 where
  pub timestamp : Text
  pub end_timestamp : Text
  pub event_id : Text
  pub uid : ℕ
  pub gid : ℕ
  pub auid : Option ℕ
  pub session_id : Option ℕ
  pub user : Text
  pub group : Text
  pub pid : ℤ
  pub ppid : ℤ
  pub comm : Text
  pub exe : Text
  pub cwd : Text
  pub argv : List Text
  pub argc : ℤ
  pub cgroup : Text
  pub tty : Text
  pub tty_nr : ℤ
  pub source : Text
  pub record_type : Text
  pub exit_status : Option ℤ
  pub duration_ns : Option ℤ
  pub exec_errno : Option ℤ
  pub exec_error : Text
  pub lost_samples : Option ℤ
  pub lost_total : Option ℤ
  pub parent_comm : Text
  pub parent_exe : Text
  pub parent_cmdline : Text
  pub parent_tty : Text
  pub parent_tty_nr : ℤ
  pub file_path : Text
  pub file_fd : Option ℤ
  pub file_bytes : Option ℤ
  pub file_flags : Option ℤ
  pub file_dev : Option ℕ
  pub file_ino : Option ℕ

-- `CommandEvent{}`, the zero value.
abbrev pub empty_event : CommandEvent
empty_event = record {
  timestamp = [];
  end_timestamp = [];
  event_id = [];
  uid = 0;
  gid = 0;
  auid = none;
  session_id = none;
  user = [];
  group = [];
  pid = pos 0;
  ppid = pos 0;
  comm = [];
  exe = [];
  cwd = [];
  argv = [];
  argc = pos 0;
  cgroup = [];
  tty = [];
  tty_nr = pos 0;
  source = [];
  record_type = [];
  exit_status = none;
  duration_ns = none;
  exec_errno = none;
  exec_error = [];
  lost_samples = none;
  lost_total = none;
  parent_comm = [];
  parent_exe = [];
  parent_cmdline = [];
  parent_tty = [];
  parent_tty_nr = pos 0;
  file_path = [];
  file_fd = none;
  file_bytes = none;
  file_flags = none;
  file_dev = none;
  file_ino = none;
}

abbrev pub source_user : Text
source_user = codes "user"

abbrev pub source_system : Text
source_system = codes "system"
