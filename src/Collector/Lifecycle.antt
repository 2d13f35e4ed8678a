-- ===== src/Collector/Lifecycle.antt =====
-- internal/collector/collector_linux.go: a process from its start to its end in the loop of `Service.Run`.
use prec.Base.{
  ℕ, ◌≡◌, refl, sym, ap, ◌∙◌, inl, inr, true, Option, none, some, List, [], ◌∷◌, ◌++◌, append_assoc,
  arith, ◌==◌, Bool-cases, ==_iff, pos, Result, ok, ◌>>=◌, bind-eq-ok, ok_injective,
}
use prec.Text.{Text}
use prec.Event.{CommandEvent}
use prec.Event.Build.{build_command_end_event}
use prec.Rules.{keeps}
use prec.Collector.{Processes, Service, Settings, World}
use prec.Collector.Attempts.{drop_exec_attempts_by_tgid, drop_file_state_by_tgid}
use prec.Collector.Sample.{Sample, exec, process_exit}
use prec.Collector.Lost.{RunError, next_event_id, write_event}
use prec.Collector.Process.{
  remember_exec_event, finalize_event, write_end, handle_exec, handle_process_exit,
  compute_duration_ns, status_of, stamp,
}
use prec.Collector.Loop.{Record, sampled, handle_sample, handle, run}
use prec.Collector.Told.{Untouched}
use prec.Collector.Between.{exit_status_in, Between, run-append, run-Follows}

-- What is written when it can be.
written_ok :
    (world : World) (ev : CommandEvent) (s t : Service)
    → write_event world ev s ≡ ok t
    → t ≡ record s { written = s.written ++ (ev ∷ []) }
unfolding write_event
written_ok world ev s t e = elim (Bool-cases (world.write_fails ev)) [
  | inl f ↦ cc (rw f at e)
  | inr f ↦ sym (ok_injective {E = RunError} (rw f at e))
]

finalize_event-known :
    (tgid : ℕ) (ev : CommandEvent) (status : Option ℕ) (start : ℕ) (p : Processes)
    → p.pending_events tgid ≡ some ev
    → p.pending_statuses tgid ≡ status
    → p.pending_start_mono tgid ≡ some start
    → (finalize_event tgid p).0 ≡ some (ev, status, start)
unfolding finalize_event
finalize_event-known tgid ev status start p known told began =
    rw (finalize_event, known, told, began) refl

drop_exec_attempts_by_tgid-Untouched :
    (p tgid : ℕ) (x : Processes) → Untouched p x (drop_exec_attempts_by_tgid tgid x)
unfolding drop_exec_attempts_by_tgid
drop_exec_attempts_by_tgid-Untouched p tgid x = record {
  event = ground arith;
  start = ground arith;
  status = ground arith;
}

remember_exec_event-remembers :
    (pid mono : ℕ) (ev : CommandEvent) (p : Processes)
    → ((remember_exec_event pid ev mono p).pending_events pid ≡ some ev)
      × ((remember_exec_event pid ev mono p).pending_statuses pid ≡ none)
      × ((remember_exec_event pid ev mono p).pending_start_mono pid ≡ some mono)
unfolding remember_exec_event
remember_exec_event-remembers pid mono ev p =
    let same : (pid == pid) ≡ true = (==_iff pid pid).1 refl in rw same (refl, refl, refl)

written_order :
    {A : Type 0} (xs ys : List A) (x y : A)
    → ((xs ++ (x ∷ [])) ++ ys) ++ (y ∷ []) ≡ xs ++ (x ∷ ys ++ (y ∷ []))
written_order xs ys x y =
    append_assoc (xs ++ (x ∷ [])) ys (y ∷ []) ∙ append_assoc xs (x ∷ []) (ys ++ (y ∷ []))

module _ (lower_rune : ℕ → ℕ) (settings : Settings) where
  handle_exec_kept :
      (world : World) (tgid mono : ℕ) (ev : CommandEvent) (exe_hint timestamp : Text) (s : Service)
      → world.build_start_event tgid exe_hint timestamp (next_event_id settings s).0 ≡ some ev
      → keeps settings.matcher ev ≡ true
      → handle_exec settings world tgid mono exe_hint timestamp s ≡ (
          write_event world ev (next_event_id settings s).1 >>= λ w.
          ok (record w { processes = remember_exec_event tgid ev mono w.processes }))
  unfolding handle_exec
  handle_exec_kept world tgid mono ev exe_hint timestamp s built kept =
      rw (handle_exec, built, kept) refl

  -- The start of a process.
  exec_opens :
      (world : World) (q : Sample) (ev : CommandEvent) (s t : Service)
      → q.event_type ≡ exec
      → world.build_start_event q.tgid q.exe_hint
          (stamp world q.kernel_mono_ns)
          (next_event_id settings s).0
        ≡ some ev
      → keeps settings.matcher ev ≡ true
      → handle lower_rune settings world (sampled q) s ≡ ok t
      → (t.processes ≡ remember_exec_event q.tgid ev q.kernel_mono_ns s.processes)
        × (t.written ≡ s.written ++ (ev ∷ []))
  unfolding handle handle_sample next_event_id
  exec_opens world q ev s t is_exec built kept e =
      let n = next_event_id settings s in
      let f : Service → Result RunError Service = λ w.
        ok (record w { processes = remember_exec_event q.tgid ev q.kernel_mono_ns w.processes }) in
      let h : handle lower_rune settings world (sampled q) s ≡ (write_event world ev n.1 >>= f) =
        rw is_exec (
          handle_exec_kept world q.tgid q.kernel_mono_ns ev q.exe_hint
            (stamp world q.kernel_mono_ns) s built kept) in
      let (w, hw, ho) = bind-eq-ok (write_event world ev n.1) f (sym h ∙ e) in
      rw (sym (ok_injective {E = RunError} ho), written_ok world ev n.1 w hw) (refl, refl)

  -- The end of a process that has been started.
  exit_closes :
      (world : World) (q : Sample) (ev : CommandEvent) (status : Option ℕ) (start : ℕ)
      (s t : Service)
      → q.event_type ≡ process_exit
      → q.tid ≡ q.tgid
      → s.processes.pending_events q.tgid ≡ some ev
      → s.processes.pending_statuses q.tgid ≡ status
      → s.processes.pending_start_mono q.tgid ≡ some start
      → handle lower_rune settings world (sampled q) s ≡ ok t
      → t.written
        ≡ s.written
          ++ (build_command_end_event world.now_text ev
                (stamp world q.kernel_mono_ns)
                (pos (compute_duration_ns start q.kernel_mono_ns))
                (status_of status)
              ∷ [])
  unfolding handle handle_sample handle_process_exit write_end
  exit_closes world q ev status start s t is_exit leader known told began e =
      let x = drop_exec_attempts_by_tgid q.tgid s.processes in
      let dropped = drop_exec_attempts_by_tgid-Untouched q.tgid q.tgid s.processes in
      let f = finalize_event q.tgid x in
      let u : Service = record s {
        processes = f.1;
        files = drop_file_state_by_tgid q.tgid s.files;
      } in
      let same : (q.tgid == q.tgid) ≡ true = (==_iff q.tgid q.tgid).1 refl in
      let found =
        finalize_event-known q.tgid ev status start x (dropped.event ∙ known)
          (dropped.status ∙ told) (dropped.start ∙ began) in
      let h : handle lower_rune settings world (sampled q) s
          ≡ write_end world q.kernel_mono_ns (stamp world q.kernel_mono_ns)
              (some (ev, status, start)) u =
        rw (is_exit, leader) (rw (same, found) refl) in
      ap (λ (w : Service). w.written) (written_ok world _ u t (sym h ∙ e))

  -- A process that starts with a record that the rules keep, and then, behind any records of which none
  -- starts or ends it, ends with the exit of its first thread: if the loop goes on to the end, then its
  -- start record is written first, and last its end record, with the time between start and end and with
  -- the status that the records between have told, the last of all its threads or else the first of one.
  pub run-end :
      (w0 w1 : World) (q0 q1 : Sample) (ev : CommandEvent) (between : List (World × Record))
      (s t : Service)
      → q0.event_type ≡ exec
      → w0.build_start_event q0.tgid q0.exe_hint
          (stamp w0 q0.kernel_mono_ns)
          (next_event_id settings s).0
        ≡ some ev
      → keeps settings.matcher ev ≡ true
      → Between q0.tgid between
      → q1.event_type ≡ process_exit
      → q1.tid ≡ q1.tgid
      → q1.tgid ≡ q0.tgid
      → run lower_rune settings ((w0, sampled q0) ∷ between ++ ((w1, sampled q1) ∷ [])) s ≡ ok t
      → (more : List CommandEvent) × (t.written
          ≡ s.written
            ++ (ev ∷ more
                ++ (build_command_end_event w1.now_text ev
                      (stamp w1 q1.kernel_mono_ns)
                      (pos (compute_duration_ns q0.kernel_mono_ns q1.kernel_mono_ns))
                      (status_of (exit_status_in q0.tgid between))
                    ∷ [])))
  unfolding run
  run-end w0 w1 q0 q1 ev between s t is_exec built kept b is_exit leader same e =
      let last : List (World × Record) = (w1, sampled q1) ∷ [] in
      let (u, hu, eu) =
        bind-eq-ok (handle lower_rune settings w0 (sampled q0) s)
          (λ x. run lower_rune settings (between ++ last) x) e in
      let (opened, start_written) = exec_opens w0 q0 ev s u is_exec built kept hu in
      let (v, hv, ev') =
        bind-eq-ok (run lower_rune settings between u) (λ x. run lower_rune settings last x)
          (sym (run-append lower_rune settings between last u) ∙ eu) in
      let k = run-Follows lower_rune settings q0.tgid between u v b hv in
      let (t', ht, et) =
        bind-eq-ok (handle lower_rune settings w1 (sampled q1) v)
          (λ x. run lower_rune settings [] x) ev' in
      let (event, status, start) =
        remember_exec_event-remembers q0.tgid q0.kernel_mono_ns ev s.processes in
      let closed =
        exit_closes w1 q1 ev (exit_status_in q0.tgid between) q0.kernel_mono_ns v t' is_exit leader
          (rw same (k.event ∙ rw opened event)) (rw same (k.status ∙ rw (opened, status) refl))
          (rw same (k.start ∙ rw opened start)) ht in
      (
        k.grows.0,
        rw (sym (ok_injective {E = RunError} et), closed, k.grows.1, start_written)
            (written_order s.written k.grows.0 ev _),
      )
