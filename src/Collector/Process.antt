-- ===== src/Collector/Process.antt =====
-- internal/collector/collector_linux.go: from the start of a process to its end.
use prec.Base.{
  ℕ, zero, suc, ◌-◌, ◌%◌, Bool, true, false, not, ◌&&◌, ◌||◌, Option, none, some, [], ltb, ◌==◌,
  if◌then◌else◌, ℤ, pos, negsuc, Result, ok, ◌>>=◌,
}
use prec.Text.{Text, is_empty, trim_space}
use prec.Text.Number.{max_int64}
use prec.Event.{CommandEvent}
use prec.Event.Build.{build_command_end_event}
use prec.Rules.{keeps}
use prec.Collector.{Processes, Service, Settings, World}
use prec.Collector.Maps.{put, delete}
use prec.Collector.Attempts.{drop_exec_attempts_by_tgid, drop_file_state_by_tgid, take_exec_attempt}
use prec.Collector.Lost.{RunError, next_event_id, write_event}

-- `rememberExecEvent`
unfoldable pub remember_exec_event : ℕ → CommandEvent → ℕ → Processes → Processes
remember_exec_event pid ev mono p = record p {
  pending_statuses = delete pid p.pending_statuses;
  pending_events = put pid ev p.pending_events;
  pending_start_mono = put pid mono p.pending_start_mono;
}

-- `normalizeExitStatus`, of an int in two's complement.
unfoldable pub normalize_exit_status : ℤ → ℕ
normalize_exit_status (pos n) = n % 256
normalize_exit_status (negsuc n) = 255 - n % 256

abbrev pub is_some {ℓ} : {A : Type ℓ} → Option A → Bool
is_some none = false
is_some (some _) = true

-- `rememberExitStatus`
unfoldable pub remember_exit_status : ℕ → ℤ → Bool → Processes → Processes
unfolding normalize_exit_status
remember_exit_status pid status from_exit_group p =
    if not from_exit_group && is_some (p.pending_statuses pid)
    then p
    else record p { pending_statuses = put pid (normalize_exit_status status) p.pending_statuses }

-- `m[pid]` where a missing key gives 0.
abbrev or_zero : Option ℕ → ℕ
or_zero none = 0
or_zero (some n) = n

-- `finalizeEvent`: the start event, the exit status and the start time, if there is a start.
unfoldable pub finalize_event : ℕ → Processes → Option (CommandEvent × Option ℕ × ℕ) × Processes
finalize_event pid p = (
  elim (p.pending_events pid) [
    | none ↦ none
    | some ev ↦ some (ev, p.pending_statuses pid, or_zero (p.pending_start_mono pid))
  ],
  record p {
    pending_events = delete pid p.pending_events;
    pending_statuses = delete pid p.pending_statuses;
    pending_start_mono = delete pid p.pending_start_mono;
  },
)

-- `computeDurationNS`
unfoldable pub compute_duration_ns : ℕ → ℕ → ℕ
compute_duration_ns start_mono end_mono =
    if start_mono == 0 || ltb end_mono start_mono
    then 0
    else if ltb max_int64 (end_mono - start_mono)
    then max_int64
    else end_mono - start_mono

abbrev pub status_of : Option ℕ → Option ℤ
status_of none = none
status_of (some n) = some (pos n)

-- The end record of a process, written if there is a start.
unfoldable pub write_end :
    World → ℕ → Text → Option (CommandEvent × Option ℕ × ℕ) → Service → Result RunError Service
unfolding compute_duration_ns build_command_end_event write_event
write_end world mono timestamp none s = ok s
write_end world mono timestamp (some (start, status, start_mono)) s =
    write_event world
      (build_command_end_event world.now_text start timestamp
        (pos (compute_duration_ns start_mono mono)) (status_of status))
      s

-- `handleProcessExit`
unfoldable pub handle_process_exit : World → ℕ → ℕ → ℕ → Text → Service → Result RunError Service
unfolding drop_exec_attempts_by_tgid drop_file_state_by_tgid finalize_event write_end
handle_process_exit world tgid tid mono timestamp s =
    if not (tid == tgid)
    then ok s
    else (let (found, p) = finalize_event tgid (drop_exec_attempts_by_tgid tgid s.processes) in
        write_end world mono timestamp found
          (record s { processes = p; files = drop_file_state_by_tgid tgid s.files }))

-- An event that the rules keep is written.
unfoldable pub write_if_kept : Settings → World → CommandEvent → Service → Result RunError Service
unfolding keeps write_event
write_if_kept settings world ev s =
    if not (keeps settings.matcher ev) then ok s else write_event world ev s

-- The case `perfEventTypeExec` of `Run`.
unfoldable pub handle_exec :
    Settings → World → ℕ → ℕ → Text → Text → Service → Result RunError Service
unfolding next_event_id keeps write_event remember_exec_event
handle_exec settings world tgid mono exe_hint timestamp s =
    let (event_id, s') = next_event_id settings s in
    elim (world.build_start_event tgid exe_hint timestamp event_id) [
      | none ↦ ok s'
      | some ev ↦
          if not (keeps settings.matcher ev)
          then ok s'
          else (write_event world ev s' >>= λ w.
              ok (record w { processes = remember_exec_event tgid ev mono w.processes }))
    ]

-- `if strings.TrimSpace(timestamp) == "" && s.timeConverter != nil`; the converter is there in `Run`.
-- A time of 0 gives the empty text.
abbrev pub stamp : World → ℕ → Text
stamp world mono = if mono == 0 then [] else world.format_time mono

abbrev pub or_stamp : World → Text → ℕ → Text
or_stamp world timestamp mono =
    if is_empty (trim_space timestamp) then stamp world mono else timestamp

-- The negative of an int64, which wraps around at its least value.
abbrev pub negated64 : ℤ → ℤ
negated64 (pos zero) = pos 0
negated64 (pos (suc n)) = negsuc n
negated64 (negsuc n) = if n == max_int64 then negsuc n else pos (suc n)

-- `buildExecFailureEvent`, with the case `perfEventTypeExecResult` of `Run` for a failure.
unfoldable pub handle_exec_failure :
    Settings → World → ℕ → ℤ → Text → Service → Result RunError Service
unfolding take_exec_attempt write_if_kept
handle_exec_failure settings world tid raw_status timestamp s =
    let (attempt, p) = take_exec_attempt tid s.processes in
    let s' : Service = record s { processes = p } in
    elim attempt [
      | none ↦ ok s'
      | some a ↦
          elim (world.build_failure_event a.tgid a.filename (negated64 raw_status)
            (or_stamp world timestamp a.timestamp)) [
              | none ↦ ok s'
              | some ev ↦ write_if_kept settings world ev s'
            ]
    ]
