-- ===== src/Collector/Told/Round.antt =====
-- internal/collector/collector_linux.go: what each round of the loop does to one process.
use prec.Base.{
  ℕ, ◌≡◌, refl, Bool, true, false, not, ◌&&◌, arith, ◌==◌, if◌then◌else◌, pos, ltb_ℤ, leb_ℤ, Result,
  ok,
}
use prec.Text.{Text}
use prec.Collector.{
  IoAttempt, FileOpenAttempt, DupAttempt, Processes, Files, Service, Settings, World,
}
use prec.Collector.Attempts.{
  remember_exec_attempt, drop_exec_attempt, drop_file_open_attempt, drop_io_attempt,
  drop_dup_attempt, remember_io_attempt, remember_file_open_attempt, remember_dup_attempt,
}
use prec.Collector.Sample.{
  Sample, EventType, exec, exit_group, process_exit, exit_status, exec_enter, exec_result,
  open_enter, open_result, write_enter, write_result, dup_enter, dup_result,
}
use prec.Collector.Lost.{RunError, handle_lost_samples}
use prec.Collector.Process.{stamp}
use prec.Collector.Open.{open_event, remember_duplicated_file}
use prec.Collector.Written.{save_event}
use prec.Collector.Loop.{Record, lost, sampled, handle_opened, handle_saved, handle_sample, handle}
use prec.Collector.Frame.{
  After, Grows, SameProcesses-Grows, After-Grows, open_event-SameProcesses,
  duplicated-SameProcesses, save_event-SameProcesses, handle_opened-Grows, handle_saved-Grows,
  handle_lost_samples-Grows,
}
use prec.Collector.Told.{
  nothing, told_by, tells, bounds_life, starts_or_ends, next_status, unchanged, Follows, Untouched,
  Grows-Follows, After-Follows, Untouched-Follows, handle_process_exit-Follows, handle_exec-Follows,
  handle_exec_failure-Follows, remember_exit_status-Follows,
}

-- A sample that tells nothing of any exit status.
quiet :
    (p : ℕ) (b : Bool) (s : Service) (r : Result RunError Service)
    → After (Follows p unchanged s) r
    → After (Follows p (λ x. next_status x (if b then nothing else nothing)) s) r
quiet p true s r h = h
quiet p false s r h = h

exec_attempts-Follows :
    (p : ℕ) (s : Service) (x : Processes)
    → Untouched p s.processes x
    → Follows p unchanged s (record s { processes = x })
exec_attempts-Follows p s x same =
    let t : Service = record s { processes = x } in
    Untouched-Follows p s t t same refl (SameProcesses-Grows t t refl)

remember_exec_attempt-Untouched :
    (p tid tgid mono : ℕ) (filename : Text) (x : Processes)
    → Untouched p x (remember_exec_attempt tid tgid filename mono x)
unfolding remember_exec_attempt
remember_exec_attempt-Untouched p tid tgid mono filename x = record {
  event = ground arith;
  start = ground arith;
  status = ground arith;
}

drop_exec_attempt-Untouched : (p tid : ℕ) (x : Processes) → Untouched p x (drop_exec_attempt tid x)
unfolding drop_exec_attempt
drop_exec_attempt-Untouched p tid x = record {
  event = ground arith;
  start = ground arith;
  status = ground arith;
}

-- Both branches of a test.
pub either-After :
    (P : Service → Type 0) (test : Bool) (x y : Result RunError Service)
    → After P x
    → After P y
    → After P (if test then x else y)
either-After P true x y h k = h
either-After P false x y h k = k

files-Grows : (s : Service) (f : Files) → Grows s (record s { files = f })
files-Grows s f = SameProcesses-Grows s (record s { files = f }) refl

-- The samples of files leave the maps on processes alone.
open_result-Grows :
    (lower_rune : ℕ → ℕ) (settings : Settings) (world : World) (q : Sample) (timestamp : Text)
    (s : Service)
    → After (Grows s) (handle_sample lower_rune settings world open_result q timestamp s)
unfolding handle_sample
open_result-Grows lower_rune settings world q timestamp s =
    let o = open_event lower_rune settings world q.tid q.status timestamp s in
    either-After (Grows s) (ltb_ℤ q.status (pos 0))
      (ok (record s { files = drop_file_open_attempt q.tid s.files })) _
      (files-Grows s (drop_file_open_attempt q.tid s.files))
      (After-Grows s o.1 (handle_opened lower_rune settings world q timestamp o)
        (SameProcesses-Grows s o.1
          (open_event-SameProcesses lower_rune settings world q.tid q.status timestamp s))
        (handle_opened-Grows lower_rune settings world q timestamp o.0 o.1))

write_result-Grows :
    (lower_rune : ℕ → ℕ) (settings : Settings) (world : World) (q : Sample) (timestamp : Text)
    (s : Service)
    → After (Grows s) (handle_sample lower_rune settings world write_result q timestamp s)
unfolding handle_sample
write_result-Grows lower_rune settings world q timestamp s =
    let o = save_event lower_rune settings world q.tid q.status q.kernel_mono_ns timestamp s in
    either-After (Grows s) (leb_ℤ q.status (pos 0))
      (ok (record s { files = drop_io_attempt q.tid s.files })) _
      (files-Grows s (drop_io_attempt q.tid s.files))
      (After-Grows s o.1 (handle_saved lower_rune settings world o)
        (SameProcesses-Grows s o.1 (
          save_event-SameProcesses lower_rune settings world q.tid q.status q.kernel_mono_ns
            timestamp s))
        (handle_saved-Grows lower_rune settings world o.0 o.1))

dup_result-Grows :
    (lower_rune : ℕ → ℕ) (settings : Settings) (world : World) (q : Sample) (timestamp : Text)
    (s : Service)
    → After (Grows s) (handle_sample lower_rune settings world dup_result q timestamp s)
unfolding handle_sample
dup_result-Grows lower_rune settings world q timestamp s =
    let t = remember_duplicated_file lower_rune settings world q.tid s in
    either-After (Grows s) (ltb_ℤ q.status (pos 0))
      (ok (record s { files = drop_dup_attempt q.tid s.files })) (ok t)
      (files-Grows s (drop_dup_attempt q.tid s.files))
      (SameProcesses-Grows s t (duplicated-SameProcesses lower_rune settings world q.tid s))

write_enter-Grows :
    (lower_rune : ℕ → ℕ) (settings : Settings) (world : World) (q : Sample) (timestamp : Text)
    (s : Service)
    → After (Grows s) (handle_sample lower_rune settings world write_enter q timestamp s)
unfolding handle_sample
write_enter-Grows lower_rune settings world q timestamp s =
    let a : IoAttempt = record { tgid = q.tgid; fd = q.status; timestamp = q.kernel_mono_ns } in
    either-After (Grows s) (ltb_ℤ q.status (pos 0)) (ok s)
      (ok (record s { files = remember_io_attempt q.tid a s.files })) (SameProcesses-Grows s s refl)
      (files-Grows s (remember_io_attempt q.tid a s.files))

exec_result-Follows :
    (lower_rune : ℕ → ℕ) (settings : Settings) (world : World) (p : ℕ) (q : Sample)
    (timestamp : Text) (s : Service)
    → After
        (Follows p unchanged s)
        (handle_sample lower_rune settings world exec_result q timestamp s)
unfolding handle_sample
exec_result-Follows lower_rune settings world p q timestamp s =
    either-After (Follows p unchanged s) (not (ltb_ℤ q.status (pos 0)))
      (ok (record s { processes = drop_exec_attempt q.tid s.processes })) _
      (exec_attempts-Follows p s (drop_exec_attempt q.tid s.processes)
        (drop_exec_attempt-Untouched p q.tid s.processes))
      (handle_exec_failure-Follows settings world p q.tid q.status timestamp s)

-- One round of the loop with a record that neither starts nor ends the process.
handle_sample-Follows :
    (lower_rune : ℕ → ℕ) (settings : Settings) (world : World) (p : ℕ) (t : EventType) (q : Sample)
    (timestamp : Text) (s : Service)
    → ((q.tgid == p) && bounds_life t q.tgid q.tid) ≡ false
    → After
        (Follows p (λ x. next_status x (if q.tgid == p then told_by t q.status else nothing)) s)
        (handle_sample lower_rune settings world t q timestamp s)
unfolding handle_sample
handle_sample-Follows lower_rune settings world p exec q timestamp s e = quiet p (q.tgid == p) s _ (
    handle_exec-Follows settings world p q.tgid q.kernel_mono_ns q.exe_hint timestamp s
      (ground arith))
handle_sample-Follows lower_rune settings world p exec_enter q timestamp s e =
    quiet p (q.tgid == p) s
      (ok (record s {
        processes = remember_exec_attempt q.tid q.tgid q.exe_hint q.kernel_mono_ns s.processes;
      }))
      (exec_attempts-Follows p s
        (remember_exec_attempt q.tid q.tgid q.exe_hint q.kernel_mono_ns s.processes)
        (remember_exec_attempt-Untouched p q.tid q.tgid q.kernel_mono_ns q.exe_hint s.processes))
handle_sample-Follows lower_rune settings world p exec_result q timestamp s e =
    quiet p (q.tgid == p) s _ (exec_result-Follows lower_rune settings world p q timestamp s)
handle_sample-Follows lower_rune settings world p open_enter q timestamp s e =
    let a : FileOpenAttempt = record {
      tgid = q.tgid;
      filename = q.exe_hint;
      dirfd = q.status2;
      flags = q.status;
      timestamp = q.kernel_mono_ns;
    } in
    quiet p (q.tgid == p) s (handle_sample lower_rune settings world open_enter q timestamp s) (
      After-Follows p s (ok (record s { files = remember_file_open_attempt q.tid a s.files }))
        (files-Grows s (remember_file_open_attempt q.tid a s.files)))
handle_sample-Follows lower_rune settings world p open_result q timestamp s e =
    quiet p (q.tgid == p) s _
      (After-Follows p s _ (open_result-Grows lower_rune settings world q timestamp s))
handle_sample-Follows lower_rune settings world p dup_enter q timestamp s e =
    let a : DupAttempt = record { tgid = q.tgid; oldfd = q.status; newfd = q.status2 } in
    quiet p (q.tgid == p) s (handle_sample lower_rune settings world dup_enter q timestamp s) (
      After-Follows p s (ok (record s { files = remember_dup_attempt q.tid a s.files }))
        (files-Grows s (remember_dup_attempt q.tid a s.files)))
handle_sample-Follows lower_rune settings world p dup_result q timestamp s e =
    quiet p (q.tgid == p) s _
      (After-Follows p s _ (dup_result-Grows lower_rune settings world q timestamp s))
handle_sample-Follows lower_rune settings world p write_enter q timestamp s e =
    quiet p (q.tgid == p) s _
      (After-Follows p s _ (write_enter-Grows lower_rune settings world q timestamp s))
handle_sample-Follows lower_rune settings world p write_result q timestamp s e =
    quiet p (q.tgid == p) s _
      (After-Follows p s _ (write_result-Grows lower_rune settings world q timestamp s))
handle_sample-Follows lower_rune settings world p exit_group q timestamp s e =
    remember_exit_status-Follows p q.tgid q.status true s
handle_sample-Follows lower_rune settings world p exit_status q timestamp s e =
    remember_exit_status-Follows p q.tgid q.status false s
handle_sample-Follows lower_rune settings world p process_exit q timestamp s e =
    quiet p (q.tgid == p) s _
      (handle_process_exit-Follows world p q.tgid q.tid q.kernel_mono_ns timestamp s e)

-- A round with a record that neither starts nor ends the process.
pub handle-Follows :
    (lower_rune : ℕ → ℕ) (settings : Settings) (world : World) (p : ℕ) (r : Record) (s : Service)
    → starts_or_ends p r ≡ false
    → After (Follows p (λ x. next_status x (tells p r)) s) (handle lower_rune settings world r s)
unfolding handle
handle-Follows lower_rune settings world p (lost n) s e =
    either-After (Follows p unchanged s) (n == 0) (ok s) (handle_lost_samples settings world n s)
      (Grows-Follows p s s (SameProcesses-Grows s s refl))
      (After-Follows p s (handle_lost_samples settings world n s)
        (handle_lost_samples-Grows (λ c. c) settings world n s))
handle-Follows lower_rune settings world p (sampled q) s e =
    handle_sample-Follows lower_rune settings world p q.event_type q (stamp world q.kernel_mono_ns)
      s e
