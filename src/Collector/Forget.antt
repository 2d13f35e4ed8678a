-- ===== src/Collector/Forget.antt =====
-- internal/collector/collector_linux.go: what is left of a process that has ended.
use prec.Base.{
  ℕ, ◌≡◌, refl, sym, ◌↔◌, inl, inr, Bool, true, false, Option, none, some, arith, ◌==◌, Bool-cases,
  Option-cases, ==_iff, ℤ, ok, ok_injective,
}
use prec.Text.{Text}
use prec.Event.{CommandEvent}
use prec.Collector.{
  Processes, Files, Service, World, ExecAttempt, FileOpenAttempt, IoAttempt, DupAttempt,
}
use prec.Collector.Maps.{delete_where}
use prec.Collector.Attempts.{drop_exec_attempts_by_tgid, drop_file_state_by_tgid}
use prec.Collector.Lost.{RunError, write_event}
use prec.Collector.Process.{finalize_event, write_end, handle_process_exit}

-- The entries of a map are those of another that the test does not meet.
abbrev WithoutThose : {V : Type 0} → (V → Bool) → (ℕ → Option V) → (ℕ → Option V) → Type 0
WithoutThose {V} test m n = (j : ℕ) (v : V) → (n j ≡ some v) ↔ ((m j ≡ some v) × (test v ≡ false))

-- Nothing is left of process `p`, and all that was of others.
pub record Forgets (p : ℕ) (s : Service) (x : Processes) (f : Files) : Type 0 where
  pub event : x.pending_events p ≡ none
  pub status : x.pending_statuses p ≡ none
  pub start : x.pending_start_mono p ≡ none
  pub execs :
      WithoutThose (λ (a : ExecAttempt). a.tgid == p) s.processes.pending_execve x.pending_execve
  pub opens :
      WithoutThose (λ (a : FileOpenAttempt). a.tgid == p) s.files.pending_open f.pending_open
  pub writes : WithoutThose (λ (a : IoAttempt). a.tgid == p) s.files.pending_write f.pending_write
  pub dups : WithoutThose (λ (a : DupAttempt). a.tgid == p) s.files.pending_dup f.pending_dup
  pub files : (fd : ℤ) → f.open_files p fd ≡ none
  pub saves : (path : Text) → f.recent_file_saves p path ≡ none
  pub others :
      (q : ℕ)
      → (q == p) ≡ false
      → (x.pending_events q ≡ s.processes.pending_events q)
        × (x.pending_statuses q ≡ s.processes.pending_statuses q)
        × (x.pending_start_mono q ≡ s.processes.pending_start_mono q)
        × ((fd : ℤ) → f.open_files q fd ≡ s.files.open_files q fd)
        × ((path : Text) → f.recent_file_saves q path ≡ s.files.recent_file_saves q path)

delete_where-WithoutThose :
    {V : Type 0} (test : V → Bool) (m : ℕ → Option V) → WithoutThose test m (delete_where test m)
delete_where-WithoutThose test m j v = elim (Option-cases (m j)) [
  | inl e ↦ rw e (ground arith)
  | inr (a, e) ↦ rw e (elim (Bool-cases (test a)) [
    | inl f ↦ rw f ((λ h. cc h), (λ h. cc))
    | inr f ↦ rw f ((λ h. (h, cc)), (λ h. h.0))
  ])
]

write_event-maps :
    (world : World) (ev : CommandEvent) (s t : Service)
    → write_event world ev s ≡ ok t
    → (t.processes ≡ s.processes) × (t.files ≡ s.files)
unfolding write_event
write_event-maps world ev s t e = elim (Bool-cases (world.write_fails ev)) [
  | inl f ↦ cc (rw f at e)
  | inr f ↦ rw (sym (ok_injective {E = RunError} (rw f at e))) (refl, refl)
]

-- The end record changes nothing but what is written.
write_end-maps :
    (world : World) (mono : ℕ) (timestamp : Text) (found : Option (CommandEvent × Option ℕ × ℕ))
    (s t : Service)
    → write_end world mono timestamp found s ≡ ok t
    → (t.processes ≡ s.processes) × (t.files ≡ s.files)
unfolding write_end
write_end-maps world mono timestamp none s t e =
    rw (sym (ok_injective {E = RunError} e)) (refl, refl)
write_end-maps world mono timestamp (some found) s t e = write_event-maps world _ s t e

forgets :
    (p : ℕ) (s : Service)
    → (p == 0) ≡ false
    → Forgets p s
        (finalize_event p (drop_exec_attempts_by_tgid p s.processes)).1
        (drop_file_state_by_tgid p s.files)
unfolding finalize_event drop_exec_attempts_by_tgid drop_file_state_by_tgid
forgets p s positive =
    let same : (p == p) ≡ true = (==_iff p p).1 refl in
    rw positive (record {
      event = rw same refl;
      status = rw same refl;
      start = rw same refl;
      execs =
          delete_where-WithoutThose (λ (a : ExecAttempt). a.tgid == p) s.processes.pending_execve;
      opens = delete_where-WithoutThose (λ (a : FileOpenAttempt). a.tgid == p) s.files.pending_open;
      writes = delete_where-WithoutThose (λ (a : IoAttempt). a.tgid == p) s.files.pending_write;
      dups = delete_where-WithoutThose (λ (a : DupAttempt). a.tgid == p) s.files.pending_dup;
      files = λ fd. rw same refl;
      saves = λ path. rw same refl;
      others = λ q e. rw e (refl, refl, refl, (λ fd. refl), (λ path. refl));
    })

-- When the first thread of a process whose id is not 0 has ended and its end record, if any, is written:
-- no map holds an event, a status, a start time, an open file or a recent save of the process, or an
-- attempt of one of its threads; and what the maps hold of other processes is as it was.
pub handle_process_exit-Forgets :
    (world : World) (p mono : ℕ) (timestamp : Text) (s t : Service)
    → (p == 0) ≡ false
    → handle_process_exit world p p mono timestamp s ≡ ok t
    → Forgets p s t.processes t.files
unfolding handle_process_exit
handle_process_exit-Forgets world p mono timestamp s t positive e =
    let same : (p == p) ≡ true = (==_iff p p).1 refl in
    let f = finalize_event p (drop_exec_attempts_by_tgid p s.processes) in
    let u : Service = record s { processes = f.1; files = drop_file_state_by_tgid p s.files } in
    let (x, y) = write_end-maps world mono timestamp f.0 u t (rw same at e) in
    rw (x, y) (forgets p s positive)
