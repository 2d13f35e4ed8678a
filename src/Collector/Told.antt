-- ===== src/Collector/Told.antt =====
-- internal/collector/collector_linux.go: what a record tells of one process, and what it leaves alone.
pub mod Round
use prec.Base.{
  ℕ, zero, suc, ◌+◌, ◌-◌, ◌*◌, ◌/◌, ◌%◌, ◌^◌, ◌≤◌, ◌<◌, min, String, ◌≡◌, refl, sym, ap, ap₂, ◌∙◌,
  ◌≡⟨◌⟩◌, ◌∎, ◌≢◌, ◌↔◌, ◌⊎◌, inl, inr, Bool, true, false, not, ◌&&◌, ◌||◌, Option, none, some, List,
  [], ◌∷◌, ◌++◌, map, append-nil, append_assoc, arith, ltb, leb, ◌==◌, if◌then◌else◌, Bool-cases,
  Option-cases, ==_iff, ltb→lt, lt→ltb, leb→le, tests, length, get_elem?, get_or, set, take, drop,
  replicate, length-append, ℤ, pos, negsuc, pos_part, neg_part, ltb_ℤ, leb_ℤ, eqb_ℤ, ◌≤ℤ◌,
  eqb_ℤ_iff, Result, ok, err, ◌>>=◌, bind-eq-ok, map_result, Result-cases, ok_injective,
  bind_ok-eq-err,
}
use prec.Text.{Text}
use prec.Event.{CommandEvent}
use prec.Rules.{keeps}
use prec.Collector.{IoAttempt, Processes, Files, Service, Settings, World}
use prec.Collector.Attempts.{
  remember_exec_attempt, drop_exec_attempt, take_exec_attempt, drop_file_open_attempt,
  drop_io_attempt, drop_dup_attempt, remember_io_attempt, drop_exec_attempts_by_tgid,
  drop_file_state_by_tgid,
}
use prec.Collector.Sample.{
  Sample, EventType, exec, exit_group, process_exit, exit_status, exec_enter, exec_result,
  open_enter, open_result, write_enter, write_result, dup_enter, dup_result,
}
use prec.Collector.Lost.{RunError, next_event_id, write_event}
use prec.Collector.Process.{
  normalize_exit_status, remember_exit_status, remember_exec_event, finalize_event, write_end,
  handle_exec, handle_exec_failure, handle_process_exit, write_if_kept, is_some, negated64,
  or_stamp,
}
use prec.Collector.Open.{open_event, remember_duplicated_file}
use prec.Collector.Written.{save_event}
use prec.Collector.Loop.{
  Record, lost, sampled, handle_opened, handle_saved, handle_sample, handle, run,
}
use prec.Collector.Frame.{
  After, SameProcesses, Grows, SameProcesses-Grows, Grows-trans, After-Grows, write_event-Grows,
  write_if_kept-Grows, open_event-SameProcesses, duplicated-SameProcesses, save_event-SameProcesses,
  handle_opened-Grows, handle_saved-Grows, handle_lost_samples-Grows,
}

-- What a sample tells of the exit status of its process: nothing, or that of one thread, or that of all.
pub data Told : Type 0 where
  nothing : Told
  one_thread all_threads : ℤ → Told

abbrev pub told_by : EventType → ℤ → Told
told_by exit_group status = all_threads status
told_by exit_status status = one_thread status
told_by _ status = nothing

abbrev pub tells : ℕ → Record → Told
tells p (lost n) = nothing
tells p (sampled q) = if q.tgid == p then told_by q.event_type q.status else nothing

-- Whether a sample starts its process, or ends it.
abbrev pub bounds_life : EventType → ℕ → ℕ → Bool
bounds_life exec tgid tid = true
bounds_life process_exit tgid tid = tid == tgid
bounds_life _ tgid tid = false

abbrev pub starts_or_ends : ℕ → Record → Bool
starts_or_ends p (lost n) = false
starts_or_ends p (sampled q) = q.tgid == p && bounds_life q.event_type q.tgid q.tid

-- The status that is kept: that of all threads, and else the first.
abbrev pub next_status : Option ℕ → Told → Option ℕ
next_status x nothing = x
next_status x (all_threads status) = some (normalize_exit_status status)
next_status none (one_thread status) = some (normalize_exit_status status)
next_status (some n) (one_thread status) = some n

-- From a state to a later one, the start of process `p` is kept, its status has been told, and nothing
-- that has been written is lost.
pub record Follows (p : ℕ) (told : Option ℕ → Option ℕ) (s t : Service) : Type 0 where
  pub event : t.processes.pending_events p ≡ s.processes.pending_events p
  pub start : t.processes.pending_start_mono p ≡ s.processes.pending_start_mono p
  pub status : t.processes.pending_statuses p ≡ told (s.processes.pending_statuses p)
  pub grows : (more : List CommandEvent) × (t.written ≡ s.written ++ more)

abbrev pub unchanged : Option ℕ → Option ℕ
unchanged x = x

pub Grows-Follows : (p : ℕ) (s t : Service) → Grows s t → Follows p unchanged s t
Grows-Follows p s t (e, more) = record {
  event = ap (λ (x : Processes). x.pending_events p) e;
  start = ap (λ (x : Processes). x.pending_start_mono p) e;
  status = ap (λ (x : Processes). x.pending_statuses p) e;
  grows = more;
}

pub After-Follows :
    (p : ℕ) (s : Service) (r : Result RunError Service)
    → After (Grows s) r
    → After (Follows p unchanged s) r
After-Follows p s (ok t) g = Grows-Follows p s t g
After-Follows p s (err e) g = tt

-- The same on the maps on processes alone.
pub record Untouched (p : ℕ) (x y : Processes) : Type 0 where
  pub event : y.pending_events p ≡ x.pending_events p
  pub start : y.pending_start_mono p ≡ x.pending_start_mono p
  pub status : y.pending_statuses p ≡ x.pending_statuses p

pub Untouched-Follows :
    (p : ℕ) (s t u : Service)
    → Untouched p s.processes t.processes
    → t.written ≡ s.written
    → Grows t u
    → Follows p unchanged s u
Untouched-Follows p s t u same e (f, (more, g)) = record {
  event = ap (λ (x : Processes). x.pending_events p) f ∙ same.event;
  start = ap (λ (x : Processes). x.pending_start_mono p) f ∙ same.start;
  status = ap (λ (x : Processes). x.pending_statuses p) f ∙ same.status;
  grows = (more, g ∙ ap (λ w. w ++ more) e);
}

After-Untouched :
    (p : ℕ) (s t : Service) (r : Result RunError Service)
    → Untouched p s.processes t.processes
    → t.written ≡ s.written
    → After (Grows t) r
    → After (Follows p unchanged s) r
After-Untouched p s t (ok u) same e g = Untouched-Follows p s t u same e g
After-Untouched p s t (err x) same e g = tt

-- An end of another process.
write_end-Grows :
    (world : World) (mono : ℕ) (timestamp : Text) (found : Option (CommandEvent × Option ℕ × ℕ))
    (s : Service)
    → After (Grows s) (write_end world mono timestamp found s)
unfolding write_end
write_end-Grows world mono timestamp none s = SameProcesses-Grows s s refl
write_end-Grows world mono timestamp (some found) s = write_event-Grows world _ s

finalize_event-Untouched :
    (p tgid : ℕ) (x : Processes)
    → (tgid == p) ≡ false
    → Untouched p x (finalize_event tgid (drop_exec_attempts_by_tgid tgid x)).1
unfolding finalize_event drop_exec_attempts_by_tgid
finalize_event-Untouched p tgid x e = record {
  event = ground arith;
  start = ground arith;
  status = ground arith;
}

pub handle_process_exit-Follows :
    (world : World) (p tgid tid mono : ℕ) (timestamp : Text) (s : Service)
    → ((tgid == p) && (tid == tgid)) ≡ false
    → After (Follows p unchanged s) (handle_process_exit world tgid tid mono timestamp s)
unfolding handle_process_exit
handle_process_exit-Follows world p tgid tid mono timestamp s e =
    let f = finalize_event tgid (drop_exec_attempts_by_tgid tgid s.processes) in
    let t : Service = record s { processes = f.1; files = drop_file_state_by_tgid tgid s.files } in
    elim (Bool-cases (tid == tgid)) [
      | inl h ↦
          let other : (tgid == p) ≡ false = ground arith in
          rw (After, h)
            (After-Untouched p s t (write_end world mono timestamp f.0 t)
              (finalize_event-Untouched p tgid s.processes other) refl
              (write_end-Grows world mono timestamp f.0 t))
      | inr h ↦ rw h (Grows-Follows p s s (SameProcesses-Grows s s refl))
    ]

remember_exec_event-Follows :
    (world : World) (p tgid mono : ℕ) (ev : CommandEvent) (s t : Service)
    → t.processes ≡ s.processes
    → t.written ≡ s.written
    → (tgid == p) ≡ false
    → After (Follows p unchanged s) (
        write_event world ev t >>= λ w.
        ok (record w { processes = remember_exec_event tgid ev mono w.processes }))
unfolding remember_exec_event write_event
remember_exec_event-Follows world p tgid mono ev s t same e other =
    let apart : (p == tgid) ≡ false = ground arith in
    elim (Bool-cases (world.write_fails ev)) [
      | inl f ↦ rw f tt
      | inr f ↦ rw f (record {
        event = rw (apart, same) refl;
        start = rw (apart, same) refl;
        status = rw (apart, same) refl;
        grows = (ev ∷ [], rw e refl);
      })
    ]

-- A start of another process.
pub handle_exec-Follows :
    (settings : Settings) (world : World) (p tgid mono : ℕ) (exe_hint timestamp : Text)
    (s : Service)
    → (tgid == p) ≡ false
    → After (Follows p unchanged s) (handle_exec settings world tgid mono exe_hint timestamp s)
unfolding handle_exec next_event_id
handle_exec-Follows settings world p tgid mono exe_hint timestamp s e =
    let n = next_event_id settings s in
    elim (Option-cases (world.build_start_event tgid exe_hint timestamp n.0)) [
      | inl h ↦ rw (After, h) (Grows-Follows p s n.1 (SameProcesses-Grows s n.1 refl))
      | inr (ev, h) ↦
          rw (After, h)
            (elim (Bool-cases (keeps settings.matcher ev)) [
              | inl k ↦ rw k (remember_exec_event-Follows world p tgid mono ev s n.1 refl refl e)
              | inr k ↦ rw k (Grows-Follows p s n.1 (SameProcesses-Grows s n.1 refl))
            ])
    ]

take_exec_attempt-Untouched :
    (p tid : ℕ) (x : Processes) → Untouched p x (take_exec_attempt tid x).1
unfolding take_exec_attempt
take_exec_attempt-Untouched p tid x = record {
  event = ground arith;
  start = ground arith;
  status = ground arith;
}

pub handle_exec_failure-Follows :
    (settings : Settings) (world : World) (p tid : ℕ) (raw_status : ℤ) (timestamp : Text)
    (s : Service)
    → After (Follows p unchanged s) (handle_exec_failure settings world tid raw_status timestamp s)
unfolding handle_exec_failure
handle_exec_failure-Follows settings world p tid raw_status timestamp s =
    let taken = take_exec_attempt tid s.processes in
    let t : Service = record s { processes = taken.1 } in
    let same = take_exec_attempt-Untouched p tid s.processes in
    let quiet = Untouched-Follows p s t t same refl (SameProcesses-Grows t t refl) in
    elim (Option-cases taken.0) [
      | inl e ↦ rw (After, e) quiet
      | inr (a, e) ↦
          rw (After, e)
            (elim (Option-cases (
              world.build_failure_event a.tgid a.filename (negated64 raw_status)
                (or_stamp world timestamp a.timestamp))) [
                  | inl f ↦ rw f quiet
                  | inr (ev, f) ↦ rw f (
                      After-Untouched p s t (write_if_kept settings world ev t) same refl
                        (write_if_kept-Grows (λ c. c) settings world ev t))
                ])
    ]

status_told :
    (p tgid : ℕ) (status : ℤ) (from_exit_group : Bool) (x : Processes)
    → (remember_exit_status tgid status from_exit_group x).pending_statuses p
      ≡ next_status (x.pending_statuses p) (
          if tgid == p
          then (if from_exit_group then all_threads status else one_thread status)
          else nothing)
unfolding remember_exit_status
status_told p tgid status from_exit_group x = elim (Bool-cases (tgid == p)) [
  | inr h ↦ let apart : (p == tgid) ≡ false = ground arith in ground arith
  | inl h ↦ let e : p ≡ tgid = ground arith in rw e (ground arith)
]

pub remember_exit_status-Follows :
    (p tgid : ℕ) (status : ℤ) (from_exit_group : Bool) (s : Service)
    → Follows p
        (λ x. next_status x (
          if tgid == p
          then (if from_exit_group then all_threads status else one_thread status)
          else nothing))
        s
        (record s { processes = remember_exit_status tgid status from_exit_group s.processes })
unfolding remember_exit_status
remember_exit_status-Follows p tgid status from_exit_group s = record {
  event = ground arith;
  start = ground arith;
  status = status_told p tgid status from_exit_group s.processes;
  grows = ([], sym (append-nil s.written));
}
