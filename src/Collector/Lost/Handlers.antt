-- ===== src/Collector/Lost/Handlers.antt =====
-- internal/collector/collector_linux.go: the handlers of samples, against the account of lost samples.
use prec.Base.{
  ℕ, refl, inl, inr, Bool, true, false, not, Option, none, some, arith, ◌==◌, Bool-cases,
  Option-cases, ℤ, pos, ltb_ℤ, leb_ℤ, Result, ok, err, ◌>>=◌,
}
use prec.Text.{Text}
use prec.Event.{CommandEvent}
use prec.Event.Build.{build_command_end_event}
use prec.Rules.{keeps}
use prec.Collector.{IoAttempt, Processes, Service, Settings, World}
use prec.Collector.Maps.{put, delete}
use prec.Collector.Attempts.{
  take_exec_attempt, remember_exec_attempt, drop_exec_attempt, drop_exec_attempts_by_tgid,
  drop_file_state_by_tgid, drop_file_open_attempt, drop_dup_attempt, remember_io_attempt,
  drop_io_attempt,
}
use prec.Collector.Sample.{
  Sample, EventType, exec, exit_group, process_exit, exit_status, exec_enter, exec_result,
  open_enter, open_result, write_enter, write_result, dup_enter, dup_result,
}
use prec.Collector.Lost.{RunError, write_event, next_event_id}
use prec.Collector.Lost.Samples.{
  TellsNoLoss, Clean, BuildsNoLoss, Even, Same-Even, After-Even, write_event-Even,
  write_if_kept-Even, record_file_event-Even, Tells, TellsOpened, open_event-TellsOpened,
  save_event-Tells,
}
use prec.Collector.Frame.{
  After, SameProcesses, open_event-SameProcesses, save_event-SameProcesses,
  duplicated-SameProcesses, fallback-SameProcesses,
}
use prec.Collector.Told.Round.{either-After}
use prec.Collector.Process.{
  or_stamp, negated64, remember_exec_event, remember_exit_status, finalize_event, write_end,
  compute_duration_ns, status_of, handle_exec, handle_exec_failure, handle_process_exit,
  write_if_kept,
}
use prec.Collector.Open.{
  Opened, failed, passed_over, opened, open_event, remember_open_file, remember_open_file_fallback,
  remember_duplicated_file,
}
use prec.Collector.Written.{save_event}
use prec.Collector.Loop.{handle_opened, handle_saved, handle_sample}

bind-Even :
    (s : Service) (r : Result RunError Service) (f : Service → Result RunError Service)
    → After (Even s) r
    → ((t : Service) → Even s t → After (Even s) (f t))
    → After (Even s) (r >>= f)
bind-Even s (ok t) f h k = k t h
bind-Even s (err e) f h k = tt

module _ (lower_rune : ℕ → ℕ) (settings : Settings) (world : World)
    (builds : BuildsNoLoss world) where
  handle_opened-Even :
      (q : Sample) (timestamp : Text) (o : Opened) (s : Service)
      → TellsOpened o
      → Clean s.processes
      → After (Even s) (handle_opened lower_rune settings world q timestamp (o, s))
  unfolding handle_opened
  handle_opened-Even q timestamp failed s quiet clean = (refl, clean)
  handle_opened-Even q timestamp passed_over s quiet clean =
      Same-Even s
        (remember_open_file_fallback lower_rune settings world q.tgid q.status timestamp s)
        (fallback-SameProcesses lower_rune settings world q.tgid q.status timestamp s) clean
  handle_opened-Even q timestamp (opened ev) s quiet clean =
      let r = remember_open_file lower_rune settings world q.tgid q.status ev s in
      let same : SameProcesses s r = unfold remember_open_file in ground arith in
      let even = Same-Even s r same clean in
      elim (Bool-cases settings.cfg.collect_file_open) [
        | inl e ↦ rw e (
            After-Even s r _ even
              (record_file_event-Even lower_rune settings world ev r quiet even.1))
        | inr e ↦ rw e even
      ]

  handle_saved-Even :
      (ev : Option CommandEvent) (s : Service)
      → Tells ev
      → Clean s.processes
      → After (Even s) (handle_saved lower_rune settings world (ev, s))
  unfolding handle_saved
  handle_saved-Even none s quiet clean = (refl, clean)
  handle_saved-Even (some ev) s quiet clean =
      record_file_event-Even lower_rune settings world ev s quiet clean

  remembered-Clean :
      (pid : ℕ) (ev : CommandEvent) (mono : ℕ) (p : Processes)
      → TellsNoLoss ev
      → Clean p
      → Clean (remember_exec_event pid ev mono p)
  unfolding remember_exec_event put
  remembered-Clean pid ev mono p quiet clean q found e = ground (arith, clean q found)

  handle_exec-Even :
      (tgid mono : ℕ) (hint timestamp : Text) (s : Service)
      → Clean s.processes
      → After (Even s) (handle_exec settings world tgid mono hint timestamp s)
  unfolding handle_exec
  handle_exec-Even tgid mono hint timestamp s clean =
      let x = next_event_id settings s in
      let same : SameProcesses s x.1 = unfold next_event_id in refl in
      let even = Same-Even s x.1 same clean in
      elim (Option-cases (world.build_start_event tgid hint timestamp x.0)) [
        | inl h ↦ rw (After, h) even
        | inr (ev, h) ↦
            let quiet = builds.start tgid hint timestamp x.0 ev h in
            let told = After-Even s x.1 _ even (write_event-Even world ev x.1 quiet even.1) in
            rw (After, h)
              (either-After (Even s) (not (keeps settings.matcher ev)) (ok x.1) _ even (
                bind-Even s (write_event world ev x.1)
                  (λ w. ok (record w { processes = remember_exec_event tgid ev mono w.processes }))
                  told (λ w e. (e.0, remembered-Clean tgid ev mono w.processes quiet e.1))))
      ]

  taken-Clean : (tid : ℕ) (p : Processes) → Clean p → Clean (take_exec_attempt tid p).1
  unfolding take_exec_attempt
  taken-Clean tid p clean q found e = clean q found (ground (arith, e))

  handle_exec_failure-Even :
      (tid : ℕ) (status : ℤ) (timestamp : Text) (s : Service)
      → Clean s.processes
      → After (Even s) (handle_exec_failure settings world tid status timestamp s)
  unfolding handle_exec_failure
  handle_exec_failure-Even tid status timestamp s clean =
      let x = take_exec_attempt tid s.processes in
      let s' : Service = record s { processes = x.1 } in
      let even : Even s s' = (refl, taken-Clean tid s.processes clean) in
      elim (Option-cases x.0) [
        | inl h ↦ rw (After, h) even
        | inr (a, h) ↦
            let t = or_stamp world timestamp a.timestamp in
            elim (Option-cases (world.build_failure_event a.tgid a.filename (negated64 status) t)) [
              | inl b ↦ rw (After, h, b) even
              | inr (ev, b) ↦
                  let quiet = builds.failure a.tgid a.filename (negated64 status) t ev b in
                  rw (After, h, b)
                    (After-Even s s' (write_if_kept settings world ev s') even
                      (write_if_kept-Even lower_rune settings world ev s' quiet even.1))
            ]
      ]

  deleted-Clean : (pid : ℕ) (p : Processes) → Clean p → Clean (finalize_event pid p).1
  unfolding finalize_event delete
  deleted-Clean pid p clean q found e = ground (arith, clean q found)

  write_end-Even :
      (mono : ℕ) (timestamp : Text) (found : Option (CommandEvent × Option ℕ × ℕ)) (s : Service)
      → Clean s.processes
      → After (Even s) (write_end world mono timestamp found s)
  unfolding write_end
  write_end-Even mono timestamp none s clean = (refl, clean)
  write_end-Even mono timestamp (some (start, status, start_mono)) s clean =
      let quiet : TellsNoLoss (
          build_command_end_event world.now_text start timestamp
            (pos (compute_duration_ns start_mono mono)) (status_of status)) =
        unfold build_command_end_event in refl in
      write_event-Even world _ s quiet clean

  handle_process_exit-Even :
      (tgid tid mono : ℕ) (timestamp : Text) (s : Service)
      → Clean s.processes
      → After (Even s) (handle_process_exit world tgid tid mono timestamp s)
  unfolding handle_process_exit
  handle_process_exit-Even tgid tid mono timestamp s clean =
      let p = drop_exec_attempts_by_tgid tgid s.processes in
      let dropped : Clean p =
        unfold drop_exec_attempts_by_tgid in λ q found e. clean q found (ground (arith, e)) in
      let gone = deleted-Clean tgid p dropped in
      let f = finalize_event tgid p in
      let s' : Service = record s {
        processes = f.1;
        files = drop_file_state_by_tgid tgid s.files;
      } in
      either-After (Even s) (not (tid == tgid)) (ok s) _ (refl, clean)
        (After-Even s s' (write_end world mono timestamp f.0 s') (refl, gone)
          (write_end-Even mono timestamp f.0 s' gone))

  open_result-Even :
      (q : Sample) (timestamp : Text) (s : Service)
      → Clean s.processes
      → After (Even s) (handle_sample lower_rune settings world open_result q timestamp s)
  unfolding handle_sample
  open_result-Even q timestamp s clean =
      let o = open_event lower_rune settings world q.tid q.status timestamp s in
      let quiet =
        open_event-TellsOpened lower_rune settings world q.tid q.status timestamp s builds in
      let even =
        Same-Even s o.1
          (open_event-SameProcesses lower_rune settings world q.tid q.status timestamp s) clean in
      either-After (Even s) (ltb_ℤ q.status (pos 0))
        (ok (record s { files = drop_file_open_attempt q.tid s.files })) _ (refl, clean)
        (After-Even s o.1 (handle_opened lower_rune settings world q timestamp o) even
          (handle_opened-Even q timestamp o.0 o.1 quiet even.1))

  write_result-Even :
      (q : Sample) (timestamp : Text) (s : Service)
      → Clean s.processes
      → After (Even s) (handle_sample lower_rune settings world write_result q timestamp s)
  unfolding handle_sample
  write_result-Even q timestamp s clean =
      let o = save_event lower_rune settings world q.tid q.status q.kernel_mono_ns timestamp s in
      let quiet =
        save_event-Tells lower_rune settings world q.tid q.status q.kernel_mono_ns timestamp s
          builds in
      let same =
        save_event-SameProcesses lower_rune settings world q.tid q.status q.kernel_mono_ns timestamp
          s in
      let even = Same-Even s o.1 same clean in
      either-After (Even s) (leb_ℤ q.status (pos 0))
        (ok (record s { files = drop_io_attempt q.tid s.files })) _ (refl, clean)
        (After-Even s o.1 (handle_saved lower_rune settings world o) even
          (handle_saved-Even o.0 o.1 quiet even.1))

  statuses-Clean :
      (pid : ℕ) (status : ℤ) (group : Bool) (p : Processes)
      → Clean p
      → Clean (remember_exit_status pid status group p)
  unfolding remember_exit_status
  statuses-Clean pid status group p clean q found e = clean q found (ground (arith, e))

  attempts-Clean :
      (tid tgid mono : ℕ) (hint : Text) (p : Processes)
      → Clean p
      → Clean (remember_exec_attempt tid tgid hint mono p)
  unfolding remember_exec_attempt
  attempts-Clean tid tgid mono hint p clean q found e = clean q found (ground (arith, e))

  dropped-Clean : (tid : ℕ) (p : Processes) → Clean p → Clean (drop_exec_attempt tid p)
  unfolding drop_exec_attempt
  dropped-Clean tid p clean q found e = clean q found (ground (arith, e))

  -- Whatever sample is handled, the account is as it was.
  pub handle_sample-Even :
      (t : EventType) (q : Sample) (timestamp : Text) (s : Service)
      → Clean s.processes
      → After (Even s) (handle_sample lower_rune settings world t q timestamp s)
  unfolding handle_sample
  handle_sample-Even exec q timestamp s clean =
      handle_exec-Even q.tgid q.kernel_mono_ns q.exe_hint timestamp s clean
  handle_sample-Even exec_enter q timestamp s clean =
      (refl, attempts-Clean q.tid q.tgid q.kernel_mono_ns q.exe_hint s.processes clean)
  handle_sample-Even exec_result q timestamp s clean =
      either-After (Even s) (not (ltb_ℤ q.status (pos 0)))
        (ok (record s { processes = drop_exec_attempt q.tid s.processes })) _
        (refl, dropped-Clean q.tid s.processes clean)
        (handle_exec_failure-Even q.tid q.status timestamp s clean)
  handle_sample-Even open_enter q timestamp s clean = (refl, clean)
  handle_sample-Even open_result q timestamp s clean = open_result-Even q timestamp s clean
  handle_sample-Even dup_enter q timestamp s clean = (refl, clean)
  handle_sample-Even dup_result q timestamp s clean =
      let t = remember_duplicated_file lower_rune settings world q.tid s in
      either-After (Even s) (ltb_ℤ q.status (pos 0))
        (ok (record s { files = drop_dup_attempt q.tid s.files })) (ok t) (refl, clean)
        (Same-Even s t (duplicated-SameProcesses lower_rune settings world q.tid s) clean)
  handle_sample-Even write_enter q timestamp s clean =
      let a : IoAttempt = record { tgid = q.tgid; fd = q.status; timestamp = q.kernel_mono_ns } in
      either-After (Even s) (ltb_ℤ q.status (pos 0)) (ok s)
        (ok (record s { files = remember_io_attempt q.tid a s.files })) (refl, clean) (refl, clean)
  handle_sample-Even write_result q timestamp s clean = write_result-Even q timestamp s clean
  handle_sample-Even exit_group q timestamp s clean =
      (refl, statuses-Clean q.tgid q.status true s.processes clean)
  handle_sample-Even exit_status q timestamp s clean =
      (refl, statuses-Clean q.tgid q.status false s.processes clean)
  handle_sample-Even process_exit q timestamp s clean =
      handle_process_exit-Even q.tgid q.tid q.kernel_mono_ns timestamp s clean
