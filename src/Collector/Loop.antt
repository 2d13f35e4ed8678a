-- ===== src/Collector/Loop.antt =====
-- internal/collector/collector_linux.go: the loop of `Service.Run`.
use prec.Base.{
  ℕ, true, false, not, Option, none, some, List, [], ◌∷◌, ◌==◌, if◌then◌else◌, pos, ltb_ℤ, leb_ℤ,
  Result, ok, ◌>>=◌,
}
use prec.Text.{Text}
use prec.Event.{CommandEvent}
use prec.Collector.{Service, Settings, World}
use prec.Collector.Sample.{
  Sample, EventType, exec, exit_group, process_exit, exit_status, exec_enter, exec_result,
  open_enter, open_result, write_enter, write_result, dup_enter, dup_result,
}
use prec.Collector.Attempts.{
  remember_exec_attempt, drop_exec_attempt, remember_file_open_attempt, drop_file_open_attempt,
  remember_dup_attempt, drop_dup_attempt, remember_io_attempt, drop_io_attempt,
}
use prec.Collector.Paths.{should_record_file_event}
use prec.Collector.Lost.{RunError, handle_lost_samples}
use prec.Collector.Process.{
  stamp, remember_exit_status, handle_exec, handle_exec_failure, handle_process_exit, write_if_kept,
}
use prec.Collector.Open.{
  Opened, failed, passed_over, opened, open_event, remember_open_file, remember_open_file_fallback,
  remember_duplicated_file,
}
use prec.Collector.Written.{save_event}

-- What `rd.Read` gives: a count of lost samples, or a sample that `parsePerfSample` accepts. Others are
-- passed over.
pub data Record : Type 0 where
  lost : ℕ → Record
  sampled : Sample → Record

module _ (lower_rune : ℕ → ℕ) (settings : Settings) (world : World) where
  -- An event of a file that is to be recorded is written, if the rules keep it.
  unfoldable pub record_file_event : CommandEvent → Service → Result RunError Service
  unfolding should_record_file_event write_if_kept
  record_file_event ev s =
      if not (should_record_file_event lower_rune world.user_home settings.cfg ev)
      then ok s
      else write_if_kept settings world ev s

  -- The case `perfEventTypeOpenResult` for a descriptor.
  unfoldable pub handle_opened : Sample → Text → Opened × Service → Result RunError Service
  unfolding remember_open_file remember_open_file_fallback record_file_event
  handle_opened sample timestamp (failed, s) = ok s
  handle_opened sample timestamp (passed_over, s) =
      ok (
        remember_open_file_fallback lower_rune settings world sample.tgid sample.status timestamp s)
  handle_opened sample timestamp (opened ev, s) =
      let s' = remember_open_file lower_rune settings world sample.tgid sample.status ev s in
      if not settings.cfg.collect_file_open then ok s' else record_file_event ev s'

  unfoldable pub handle_saved : Option CommandEvent × Service → Result RunError Service
  unfolding record_file_event
  handle_saved (none, s) = ok s
  handle_saved (some ev, s) = record_file_event ev s

  -- The `switch` of `Run`.
  unfoldable pub handle_sample : EventType → Sample → Text → Service → Result RunError Service
  unfolding handle_exec remember_exec_attempt drop_exec_attempt handle_exec_failure
      remember_file_open_attempt drop_file_open_attempt handle_opened open_event
      remember_dup_attempt drop_dup_attempt remember_duplicated_file remember_io_attempt
      drop_io_attempt save_event handle_saved remember_exit_status handle_process_exit
  handle_sample exec p timestamp s =
      handle_exec settings world p.tgid p.kernel_mono_ns p.exe_hint timestamp s
  handle_sample exec_enter p timestamp s = ok (record s {
    processes = remember_exec_attempt p.tid p.tgid p.exe_hint p.kernel_mono_ns s.processes;
  })
  handle_sample exec_result p timestamp s =
      if not (ltb_ℤ p.status (pos 0))
      then ok (record s { processes = drop_exec_attempt p.tid s.processes })
      else handle_exec_failure settings world p.tid p.status timestamp s
  handle_sample open_enter p timestamp s = ok (record s {
    files =
        remember_file_open_attempt p.tid
          (record {
            tgid = p.tgid;
            filename = p.exe_hint;
            dirfd = p.status2;
            flags = p.status;
            timestamp = p.kernel_mono_ns;
          })
          s.files;
  })
  handle_sample open_result p timestamp s =
      if ltb_ℤ p.status (pos 0)
      then ok (record s { files = drop_file_open_attempt p.tid s.files })
      else handle_opened p timestamp
          (open_event lower_rune settings world p.tid p.status timestamp s)
  handle_sample dup_enter p timestamp s = ok (record s {
    files =
        remember_dup_attempt p.tid (record { tgid = p.tgid; oldfd = p.status; newfd = p.status2 })
          s.files;
  })
  handle_sample dup_result p timestamp s =
      if ltb_ℤ p.status (pos 0)
      then ok (record s { files = drop_dup_attempt p.tid s.files })
      else ok (remember_duplicated_file lower_rune settings world p.tid s)
  handle_sample write_enter p timestamp s =
      if ltb_ℤ p.status (pos 0)
      then ok s
      else ok (record s {
        files =
            remember_io_attempt p.tid
              (record { tgid = p.tgid; fd = p.status; timestamp = p.kernel_mono_ns }) s.files;
      })
  handle_sample write_result p timestamp s =
      if leb_ℤ p.status (pos 0)
      then ok (record s { files = drop_io_attempt p.tid s.files })
      else handle_saved
          (save_event lower_rune settings world p.tid p.status p.kernel_mono_ns timestamp s)
  handle_sample exit_group p timestamp s =
      ok (record s { processes = remember_exit_status p.tgid p.status true s.processes })
  handle_sample exit_status p timestamp s =
      ok (record s { processes = remember_exit_status p.tgid p.status false s.processes })
  handle_sample process_exit p timestamp s =
      handle_process_exit world p.tgid p.tid p.kernel_mono_ns timestamp s

-- One round of the loop.
unfoldable pub handle : (ℕ → ℕ) → Settings → World → Record → Service → Result RunError Service
unfolding handle_lost_samples handle_sample
handle lower_rune settings world (lost n) s =
    if n == 0 then ok s else handle_lost_samples settings world n s
handle lower_rune settings world (sampled p) s =
    handle_sample lower_rune settings world p.event_type p (stamp world p.kernel_mono_ns) s

-- `Service.Run` over what the reader gives, each with what the system answers then. An error ends it.
unfoldable pub run : (ℕ → ℕ) → Settings → List (World × Record) → Service → Result RunError Service
unfolding handle
run lower_rune settings [] s = ok s
run lower_rune settings ((world, r) ∷ rest) s =
    handle lower_rune settings world r s >>= λ s'. run lower_rune settings rest s'
