-- ===== src/Collector/Lost/Samples.antt =====
-- internal/collector/collector_linux.go: samples that are not lost, which report no losses.
use prec.Base.{
  ℕ, ◌+◌, ◌≡◌, refl, sym, ap, ◌∙◌, inl, inr, not, Option, none, some, List, [], ◌∷◌, arith,
  Bool-cases, Option-cases, ℤ, pos, negsuc, leb_ℤ, eqb_ℤ, Result, ok, err,
}
use mathlib.Core.Path.{subst}
use prec.Text.{Text}
use prec.Event.{CommandEvent}
use prec.Event.Build.{build_file_open_event, build_file_save_event}
use prec.Collector.{
  FileOpenAttempt, IoAttempt, FileIdentity, Processes, Losses, Service, Settings, World,
}
use prec.Collector.Lost.{RunError, write_event, next_event_id}
use prec.Collector.Lost.Ledger.{reported, accounted, reported-append}
use prec.Collector.Frame.{After, SameProcesses}
use prec.Collector.Process.{write_if_kept, or_stamp}
use prec.Collector.Attempts.{take_file_open_attempt, take_io_attempt}
use prec.Collector.Paths.{
  should_record_file_event, normalize_file_path, should_emit_file_open_event,
  should_track_file_path, should_drop_precd_self_log_write,
}
use prec.Collector.Saves.{should_suppress_duplicate_file_save}
use prec.Rules.{keeps}
use prec.Collector.Open.{
  Opened, opened, build_file_base_event, open_event, open_event_of, resolve_process_fd_path,
  identity_at, set_file_identity,
}
use prec.Collector.Written.{
  save_event_of, save_event_at, save_event, resolve_tracked_regular_file_path,
}
use prec.Collector.Loop.{record_file_event}

-- An event that counts no lost samples.
abbrev pub TellsNoLoss : CommandEvent → Type 0
TellsNoLoss ev = ev.lost_samples ≡ none

-- No start event that is kept counts any.
abbrev pub Clean : Processes → Type 0
Clean p = (pid : ℕ) (ev : CommandEvent) → p.pending_events pid ≡ some ev → TellsNoLoss ev

abbrev pub Tells : Option CommandEvent → Type 0
Tells none = Unit
Tells (some ev) = TellsNoLoss ev

abbrev pub TellsOpened : Opened → Type 0
TellsOpened (opened ev) = TellsNoLoss ev
TellsOpened _ = Unit

-- What `events.BuildFromPID` and `events.BuildExecFailureEvent` return counts none.
pub record BuildsNoLoss (world : World) : Type 0 where
  pub start :
      (tgid : ℕ) (hint timestamp event_id : Text) (ev : CommandEvent)
      → world.build_start_event tgid hint timestamp event_id ≡ some ev
      → TellsNoLoss ev
  pub failure :
      (tgid : ℕ) (filename : Text) (status : ℤ) (timestamp : Text) (ev : CommandEvent)
      → world.build_failure_event tgid filename status timestamp ≡ some ev
      → TellsNoLoss ev

-- The account of lost samples is as it was, and no start event counts any.
abbrev pub Even : Service → Service → Type 0
Even s t = (accounted t ≡ accounted s) × Clean t.processes

pub Same-Even : (s t : Service) → SameProcesses s t → Clean s.processes → Even s t
Same-Even s t e clean = (
  ap (λ (k : Processes × List CommandEvent × Losses). reported k.1 + k.2.pending_lost_log) e,
  subst Clean (sym (ap (λ (k : Processes × List CommandEvent × Losses). k.0) e)) clean,
)

pub After-Even :
    (s t : Service) (r : Result RunError Service) → Even s t → After (Even t) r → After (Even s) r
After-Even s t (ok u) g h = (h.0 ∙ g.0, h.1)
After-Even s t (err x) g h = tt

pub write_event-Even :
    (world : World) (ev : CommandEvent) (s : Service)
    → TellsNoLoss ev
    → Clean s.processes
    → After (Even s) (write_event world ev s)
unfolding write_event
write_event-Even world ev s quiet clean = elim (Bool-cases (world.write_fails ev)) [
  | inl e ↦ rw e tt
  | inr e ↦
      let all = reported-append s.written (ev ∷ []) in
      let more : reported (ev ∷ []) ≡ 0 = rw quiet refl in rw e (omega (arith, all, more), clean)
]

module _ (lower_rune : ℕ → ℕ) (settings : Settings) (world : World) where
  pub write_if_kept-Even :
      (ev : CommandEvent) (s : Service)
      → TellsNoLoss ev
      → Clean s.processes
      → After (Even s) (write_if_kept settings world ev s)
  unfolding write_if_kept
  write_if_kept-Even ev s quiet clean = elim (Bool-cases (keeps settings.matcher ev)) [
    | inl e ↦ rw e (write_event-Even world ev s quiet clean)
    | inr e ↦ rw e (refl, clean)
  ]

  pub record_file_event-Even :
      (ev : CommandEvent) (s : Service)
      → TellsNoLoss ev
      → Clean s.processes
      → After (Even s) (record_file_event lower_rune settings world ev s)
  unfolding record_file_event
  record_file_event-Even ev s quiet clean =
      elim (Bool-cases (should_record_file_event lower_rune world.user_home settings.cfg ev)) [
        | inl e ↦ rw e (write_if_kept-Even ev s quiet clean)
        | inr e ↦ rw e (refl, clean)
      ]

  base-Tells :
      (tgid : ℕ) (timestamp : Text) (s : Service)
      → BuildsNoLoss world
      → Tells (build_file_base_event lower_rune settings world tgid timestamp s).0
  unfolding build_file_base_event
  base-Tells tgid timestamp s builds =
      let event_id = (next_event_id settings s).0 in
      elim (Option-cases (s.processes.pending_events tgid)) [
        | inr (start, h) ↦ rw (Tells, h) refl
        | inl h ↦ elim (Option-cases (world.build_start_event tgid [] timestamp event_id)) [
          | inl b ↦ rw (Tells, h, b) tt
          | inr (ev, b) ↦ rw (Tells, h, b) (builds.start tgid [] timestamp event_id ev b)
        ]
      ]

  set_file_identity-TellsNoLoss :
      (ev : CommandEvent) (identity : FileIdentity)
      → TellsNoLoss ev
      → TellsNoLoss (set_file_identity ev identity)
  unfolding set_file_identity
  set_file_identity-TellsNoLoss ev none h = h
  set_file_identity-TellsNoLoss ev (some (dev, ino)) h = h

  open_event_of-TellsOpened :
      (a : FileOpenAttempt) (fd : ℤ) (ev : CommandEvent)
      → TellsNoLoss ev
      → TellsOpened (open_event_of lower_rune settings world a fd ev)
  unfolding open_event_of build_file_open_event
  open_event_of-TellsOpened a fd ev h =
      let path =
        normalize_file_path a.filename ev.cwd (resolve_process_fd_path world a.tgid a.dirfd)
          (not (eqb_ℤ a.dirfd (negsuc 99))) in
      let identity = identity_at lower_rune settings world a.tgid fd in
      elim (Bool-cases (should_emit_file_open_event a.flags settings.capture_read_opens)) [
        | inr e ↦ rw (TellsOpened, e) tt
        | inl e ↦ elim (Bool-cases (should_track_file_path path)) [
          | inr t ↦ rw (TellsOpened, e, t) tt
          | inl t ↦
              rw (TellsOpened, e, t)
                (set_file_identity-TellsNoLoss (build_file_open_event ev path fd a.flags) identity
                  h)
        ]
      ]

  pub open_event-TellsOpened :
      (tid : ℕ) (fd : ℤ) (timestamp : Text) (s : Service)
      → BuildsNoLoss world
      → TellsOpened (open_event lower_rune settings world tid fd timestamp s).0
  unfolding open_event take_file_open_attempt
  open_event-TellsOpened tid fd timestamp s builds =
      elim (Option-cases (s.files.pending_open tid)) [
        | inl h ↦ rw (TellsOpened, h) tt
        | inr (a, h) ↦
            let t = or_stamp world timestamp a.timestamp in
            let s' : Service = record s { files = (take_file_open_attempt tid s.files).1 } in
            elim (Option-cases (build_file_base_event lower_rune settings world a.tgid t s').0) [
              | inl b ↦ rw (TellsOpened, h, b) tt
              | inr (ev, b) ↦
                  let quiet : TellsNoLoss ev = rw b at (base-Tells a.tgid t s' builds) in
                  rw (TellsOpened, h, b) (open_event_of-TellsOpened a fd ev quiet)
            ]
      ]

  save_event_of-Tells :
      (a : IoAttempt) (bytes_count : ℤ) (mono : ℕ) (file : Text × FileIdentity) (ev : CommandEvent)
      (s : Service)
      → TellsNoLoss ev
      → Tells (save_event_of lower_rune settings world a bytes_count mono file ev s).0
  unfolding save_event_of build_file_save_event
  save_event_of-Tells a bytes_count mono (path, identity) ev s h =
      let suppressed =
        should_suppress_duplicate_file_save settings.cfg.file_save_dedup_sec a.tgid path mono
          s.files in
      elim (Bool-cases
        (should_drop_precd_self_log_write lower_rune ev path settings.cfg.log_path)) [
          | inl e ↦ rw (Tells, e) tt
          | inr e ↦ elim (Bool-cases suppressed.0) [
            | inl r ↦ rw (Tells, e, r) tt
            | inr r ↦
                rw (Tells, e, r)
                  (set_file_identity-TellsNoLoss (build_file_save_event ev path a.fd bytes_count)
                    identity h)
          ]
        ]

  save_event_at-Tells :
      (a : IoAttempt) (bytes_count : ℤ) (mono : ℕ) (timestamp : Text) (s : Service)
      → BuildsNoLoss world
      → Tells (save_event_at lower_rune settings world a bytes_count mono timestamp s).0
  unfolding save_event_at
  save_event_at-Tells a bytes_count mono timestamp s builds =
      let tracked = resolve_tracked_regular_file_path world a.tgid a.fd mono s in
      let t = or_stamp world timestamp a.timestamp in
      let based = build_file_base_event lower_rune settings world a.tgid t tracked.1 in
      elim (Option-cases tracked.0) [
        | inl e ↦ rw (Tells, save_event_at, e) tt
        | inr (file, e) ↦ elim (Option-cases based.0) [
          | inl f ↦ rw (Tells, save_event_at, e, f) tt
          | inr (ev, f) ↦
              let quiet : TellsNoLoss ev = rw f at (base-Tells a.tgid t tracked.1 builds) in
              rw (Tells, save_event_at, e, f)
                (save_event_of-Tells a bytes_count mono file ev based.1 quiet)
        ]
      ]

  pub save_event-Tells :
      (tid : ℕ) (bytes_count : ℤ) (mono : ℕ) (timestamp : Text) (s : Service)
      → BuildsNoLoss world
      → Tells (save_event lower_rune settings world tid bytes_count mono timestamp s).0
  unfolding save_event take_io_attempt
  save_event-Tells tid bytes_count mono timestamp s builds =
      elim (Bool-cases (leb_ℤ bytes_count (pos 0))) [
        | inl e ↦ rw (Tells, e) tt
        | inr e ↦ elim (Option-cases (s.files.pending_write tid)) [
          | inl h ↦ rw (Tells, e, h) tt
          | inr (a, h) ↦
              rw (Tells, e, h) (save_event_at-Tells a bytes_count mono timestamp _ builds)
        ]
      ]
