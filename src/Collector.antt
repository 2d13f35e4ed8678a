-- ===== src/Collector.antt =====
-- internal/collector/collector_linux.go: what the daemon keeps from sample to sample, and what the
-- loop of `Service.Run` does with each sample. A Go map is a function to `Option`; the maps of
-- `Service` are grouped by what they serve. Process and thread ids are positive behind
-- `parsePerfSample`, so they are natural numbers. The mutex is not modelled: one goroutine runs the
-- loop. The eBPF programs that give the samples are not modelled.
pub mod Maps
pub mod Sample
pub mod Attempts
pub mod Paths
pub mod Saves
pub mod Lost
pub mod Process
pub mod Open
pub mod Written
pub mod Loop
pub mod Frame
pub mod Told
pub mod Between
pub mod Lifecycle
pub mod Forget
use prec.Base.{
  ℕ, zero, suc, ◌+◌, ◌-◌, ◌*◌, ◌/◌, ◌%◌, ◌^◌, ◌≤◌, ◌<◌, min, String, ◌≡◌, refl, sym, ap, ap₂, ◌∙◌,
  ◌≡⟨◌⟩◌, ◌∎, ◌≢◌, ◌↔◌, ◌⊎◌, inl, inr, Bool, true, false, not, ◌&&◌, ◌||◌, Option, none, some, List,
  [], ◌∷◌, ◌++◌, map, append-nil, append_assoc, arith, ltb, leb, ◌==◌, if◌then◌else◌, Bool-cases,
  Option-cases, ==_iff, ltb→lt, lt→ltb, leb→le, tests, length, get_elem?, get_or, set, take, drop,
  replicate, length-append, ℤ, pos, negsuc, pos_part, neg_part, ltb_ℤ, leb_ℤ, eqb_ℤ, ◌≤ℤ◌,
  eqb_ℤ_iff, Result, ok, err, ◌>>=◌, bind-eq-ok, map_result, Result-cases, ok_injective,
  bind_ok-eq-err,
}
use prec.Text.{Text}
use prec.Event.{CommandEvent}
use prec.Event.Build.{Identity}
use prec.Rules.{Matcher}
use prec.Config.{Config}

-- `execAttempt`
pub record ExecAttempt : Type 0 where
  pub tgid : ℕ
  pub filename : Text
  pub timestamp : ℕ

-- `fileOpenAttempt`
pub record FileOpenAttempt : Type 0 where
  pub tgid : ℕ
  pub filename : Text
  pub dirfd : ℤ
  pub flags : ℤ
  pub timestamp : ℕ

-- `ioAttempt`
pub record IoAttempt : Type 0 where
  pub tgid : ℕ
  pub fd : ℤ
  pub timestamp : ℕ

-- `dupAttempt`
pub record DupAttempt : Type 0 where
  pub tgid : ℕ
  pub oldfd : ℤ
  pub newfd : ℤ

-- `fileIdentity`; one that is not valid is `none`.
abbrev pub FileIdentity : Type 0
FileIdentity = Option (ℕ × ℕ)

-- `openFileState`
pub record OpenFileState : Type 0 where
  pub event : CommandEvent
  pub identity : FileIdentity
  pub last_identity_check_mono : ℕ

-- The maps of `Service` on processes.
pub record Processes : Type 0 where
  pub pending_events : ℕ → Option CommandEvent
  pub pending_statuses : ℕ → Option ℕ
  pub pending_start_mono : ℕ → Option ℕ
  pub pending_execve : ℕ → Option ExecAttempt

-- Its maps on files: `openFiles` by process and descriptor, `recentFileSaves` by process and path.
pub record Files : Type 0 where
  pub pending_open : ℕ → Option FileOpenAttempt
  pub pending_write : ℕ → Option IoAttempt
  pub pending_dup : ℕ → Option DupAttempt
  pub open_files : ℕ → ℤ → Option OpenFileState
  pub recent_file_saves : ℕ → Text → Option ℕ
  pub last_file_save_gc : ℕ

-- Its counters of lost samples; `last_lost_log_at` is `none` for the zero time.
pub record Losses : Type 0 where
  pub lost_total : ℕ
  pub pending_lost_log : ℕ
  pub last_lost_log_at : Option ℤ

-- `Service`, with the events that have been handed to the writer.
pub record Service : Type 0 where
  pub processes : Processes
  pub files : Files
  pub losses : Losses
  pub event_seq : ℕ
  pub written : List CommandEvent

-- The fields of `Service` that no sample changes.
pub record Settings : Type 0 where
  pub cfg : Config
  pub matcher : Matcher
  pub capture_read_opens : Bool
  pub event_id_prefix : Text

-- What the system answers while one sample is handled: `buildStartEventFn`, or else
-- `events.BuildFromPID` with its retries; `events.BuildExecFailureEvent`; the links and files of
-- /proc/<pid>/fd; the home of a user; `kernelTimeConverter.format` of a time that is not 0; the time;
-- and whether the writer fails.
pub record World : Type 0 where
  pub build_start_event : ℕ → Text → Text → Text → Option CommandEvent
  pub build_failure_event : ℕ → Text → ℤ → Text → Option CommandEvent
  pub fd_link : ℕ → ℤ → Text
  pub regular_file : ℕ → ℤ → Option (Text × FileIdentity)
  pub user_home : ℕ → Text
  pub format_time : ℕ → Text
  pub now : ℤ
  pub now_text : Text
  pub identity : Identity
  pub write_fails : CommandEvent → Bool
