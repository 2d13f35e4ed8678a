-- ===== src/Tests/Collectors.antt =====
-- internal/collector/collector_linux.go on one process.
use prec.Base.{
  ℕ, ◌+◌, ◌≡◌, ◌++◌, refl, true, false, none, some, List, [], ◌∷◌, ℤ, pos, Result, ok, err,
}
use prec.Base.{arith, replicate, negsuc, ◌^◌, ◌-◌}
use prec.Text.{codes, equal, is_space, split}
use prec.Text.Number.{decimal}
use prec.Event.{CommandEvent, empty_event, source_user}
use prec.Event.Build.{build_command_end_event}
use prec.Rules.{keeps}
use prec.Config.{default_config}
use prec.Collector.{Service, Settings, World}
use prec.Collector.Attempts.{drop_exec_attempts_by_tgid, drop_file_state_by_tgid}
use prec.Collector.Sample.Layout.{Fields, FitsSample, sample_bytes, short, negative32}
use prec.Collector.Sample.Round.{told, parse_perf_sample-sample_bytes}
use prec.Collector.Sample.{
  write_enter, parse_perf_sample, event_type_of, payload, parse_perf_sample_int64, little_endian,
  Sample, EventType, open_enter, exec, exit_status, process_exit,
}
use prec.Collector.Lost.{
  RunError, next_event_id, write_event, handle_lost_samples, log_lost_samples, log_loss,
  consume_lost_samples_for_log,
}
use prec.Collector.Lost.Ledger.{accounted}
use prec.Collector.Lost.Samples.{BuildsNoLoss}
use prec.Collector.Lost.Account.{sum_lost, run-accounted}
use prec.Collector.Process.{
  handle_exec, handle_process_exit, remember_exec_event, remember_exit_status, finalize_event,
  write_end, compute_duration_ns, normalize_exit_status, status_of,
}
use prec.Collector.Loop.{Record, lost, sampled, handle_sample, handle, run}
use prec.Collector.Between.{exit_status_in}
use prec.Collector.Lifecycle.{run-end}
use prec.Collector.Forget.{Forgets, handle_process_exit-Forgets}
use prec.Collector.Saves.History.{
  Save, answers, by_history, should_suppress_duplicate_file_save-by_history,
}

abbrev settings : Settings
settings = record {
  cfg = default_config;
  matcher = record { rules = []; default_allow = true; user_only = false };
  capture_read_opens = false;
  event_id_prefix = codes "a";
}

-- A system on which every program can be looked up and every event written.
abbrev world : World
world = record {
  build_start_event = λ tgid hint timestamp event_id.
      some (record empty_event { pid = pos tgid; event_id = event_id; source = source_user });
  build_failure_event = λ tgid filename errno timestamp. none;
  fd_link = λ tgid fd. [];
  regular_file = λ tgid fd. none;
  user_home = λ uid. [];
  format_time = λ mono. codes "t";
  now = pos 5000000000;
  now_text = codes "now";
  identity = record { uid = 0; gid = 0; user = codes "root"; group = codes "root" };
  write_fails = λ ev. false;
}

abbrev started : Service
started = record {
  processes = record {
    pending_events = λ p. none;
    pending_statuses = λ p. none;
    pending_start_mono = λ p. none;
    pending_execve = λ p. none;
  };
  files = record {
    pending_open = λ p. none;
    pending_write = λ p. none;
    pending_dup = λ p. none;
    open_files = λ p fd. none;
    recent_file_saves = λ p path. none;
    last_file_save_gc = 0;
  };
  losses = record { lost_total = 0; pending_lost_log = 0; last_lost_log_at = none };
  event_seq = 0;
  written = [];
}

abbrev sample : EventType → ℕ → ℤ → Sample
sample t mono status = record {
  event_type = t;
  tgid = 7;
  tid = 7;
  status = status;
  status2 = pos 0;
  kernel_mono_ns = mono;
  exe_hint = codes "/bin/sh";
}

abbrev state_of : Result RunError Service → Service
state_of (ok s) = s
state_of (err e) = started

-- A process that tells its status, and that it ends.
abbrev between : List (World × Record)
between = (world, sampled (sample exit_status 20 (pos 259))) ∷ []

abbrev life : List (World × Record)
life =
    (world, sampled (sample exec 10 (pos 0))) ∷ between
    ++ ((world, sampled (sample process_exit 35 (pos 0))) ∷ [])

abbrev start_event : CommandEvent
start_event = record empty_event { pid = pos 7; event_id = codes "a-1"; source = source_user }

run-end_example :
    (more : List CommandEvent) × ((state_of (run (λ c. c) settings life started)).written
      ≡ []
        ++ (start_event ∷ more
            ++ (build_command_end_event
                  (codes "now")
                  start_event
                  (codes "t")
                  (pos (compute_duration_ns 10 35))
                  (status_of (exit_status_in 7 between))
                ∷ [])))
unfolding run handle handle_sample handle_exec handle_process_exit next_event_id keeps write_event
    remember_exec_event remember_exit_status normalize_exit_status finalize_event write_end
    drop_exec_attempts_by_tgid drop_file_state_by_tgid decimal
run-end_example =
    run-end (λ c. c) settings world world (sample exec 10 (pos 0)) (sample process_exit 35 (pos 0))
      start_event between started (state_of (run (λ c. c) settings life started)) refl refl refl
      (refl, tt) refl refl refl refl

-- The end record holds 25 ns and the status 3, which 259 stands for.
reported_end : exit_status_in 7 between ≡ some 3
unfolding normalize_exit_status
reported_end = refl

abbrev ended : Service
ended = state_of (handle_process_exit world 7 7 35 (codes "t") started)

handle_process_exit-Forgets_example : Forgets 7 started ended.processes ended.files
unfolding handle_process_exit finalize_event write_end drop_exec_attempts_by_tgid
    drop_file_state_by_tgid
handle_process_exit-Forgets_example =
    handle_process_exit-Forgets world 7 35 (codes "t") started ended refl refl

-- The second one is too early, the third is not.
abbrev three_saves : List Save
three_saves =
    record { tgid = 7; path = codes "/a"; mono = 1 }
    ∷ record { tgid = 7; path = codes "/a/"; mono = 5000000000 }
    ∷ record { tgid = 7; path = codes "/a"; mono = 10000000001 }
    ∷ []

should_suppress_duplicate_file_save-by_history_example :
    answers (pos 10) three_saves started.files ≡ by_history (pos 10) three_saves []
should_suppress_duplicate_file_save-by_history_example =
    should_suppress_duplicate_file_save-by_history (pos 10) three_saves started.files
      (λ tgid path. refl)
      (omega arith, omega arith, (omega arith, omega arith, (omega arith, omega arith, tt)))

by_history_three : by_history (pos 10) three_saves [] ≡ false ∷ true ∷ false ∷ []
unfolding by_history is_space split
by_history_three = refl

-- Three samples are lost before a process starts, and four once it has ended.
abbrev losses_and_life : List (World × Record)
losses_and_life = (world, lost 3) ∷ life ++ ((world, lost 4) ∷ [])

abbrev told_losses : Service
told_losses = state_of (run (λ c. c) settings losses_and_life started)

abbrev world-BuildsNoLoss : BuildsNoLoss world
world-BuildsNoLoss = record {
  start = λ tgid hint timestamp event_id ev e. cc;
  failure = λ tgid filename status timestamp ev e. cc;
}

run-accounted_example : accounted told_losses ≡ accounted started + sum_lost losses_and_life
unfolding run handle handle_sample handle_exec handle_process_exit keeps remember_exec_event
    remember_exit_status normalize_exit_status finalize_event write_end drop_exec_attempts_by_tgid
    drop_file_state_by_tgid handle_lost_samples log_lost_samples log_loss
    consume_lost_samples_for_log next_event_id write_event decimal equal
run-accounted_example =
    run-accounted (λ c. c) settings losses_and_life started told_losses refl
      (
        world-BuildsNoLoss,
        (world-BuildsNoLoss, (world-BuildsNoLoss, (world-BuildsNoLoss, (world-BuildsNoLoss, tt)))),
      )
      (λ pid ev e. cc) (omega arith) refl

-- A write of descriptor 3 that thread 8 of process 7 enters.
abbrev raw_write : List ℕ
raw_write =
    13 ∷ replicate 7 0
    ++ (8 ∷ replicate 3 0
        ++ (7 ∷ replicate 3 0 ++ (3 ∷ replicate 7 0 ++ (9 ∷ replicate 271 0 ++ []))))

abbrev write_sample : Sample
write_sample = record {
  event_type = write_enter;
  tgid = 7;
  tid = 8;
  status = pos 3;
  status2 = pos 0;
  kernel_mono_ns = 9;
  exe_hint = [];
}

parse_write : parse_perf_sample (λ bytes. bytes) raw_write ≡ some write_sample
unfolding parse_perf_sample event_type_of payload parse_perf_sample_int64 little_endian
parse_write = refl

-- Thread 8 of process 7 opens "a" in its working directory, which -100 stands for, here in 32 bits.
abbrev open_fields : Fields
open_fields = record {
  kind = open_enter;
  padding = replicate 7 255;
  tid = 8;
  tgid = 7;
  status = 2 ^ 32 - 1 - 99;
  time = 9;
  name = codes "a";
  after_name = replicate 255 0;
  status2 = 577;
  rest = 1 ∷ 2 ∷ [];
}

abbrev open_fields-FitsSample : FitsSample open_fields
open_fields-FitsSample = record {
  padding_length = refl;
  thread = (omega arith, omega arith);
  process = (omega arith, omega arith);
  ktime = omega arith;
  area = refl;
  no_zero = ((λ e. cc), tt);
  ends = refl;
}

parse_perf_sample-sample_bytes_example :
    parse_perf_sample (λ bytes. bytes) (sample_bytes open_fields)
    ≡ some (told (λ bytes. bytes) open_fields (negsuc 99) (pos 577))
parse_perf_sample-sample_bytes_example =
    parse_perf_sample-sample_bytes (λ bytes. bytes) open_fields (negsuc 99) (pos 577)
      open_fields-FitsSample (negative32 (omega arith)) (short (omega arith))
