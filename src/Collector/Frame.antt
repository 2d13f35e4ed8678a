-- ===== src/Collector/Frame.antt =====
-- internal/collector/collector_linux.go: what the samples of files leave alone.
use prec.Base.{
  ℕ, ◌+◌, ◌%◌, ◌^◌, ◌≡◌, refl, sym, ap, ◌∙◌, inl, inr, Bool, true, false, Option, none, some, List,
  [], ◌∷◌, ◌++◌, append-nil, append_assoc, arith, if◌then◌else◌, Bool-cases, Option-cases, ℤ, pos,
  leb_ℤ, Result, ok, err, ◌>>=◌,
}
use prec.Text.{Text, codes, equal, is_empty}
use prec.Event.{CommandEvent}
use prec.Rules.{keeps}
use prec.Collector.{FileIdentity}
use prec.Collector.Paths.{should_record_file_event, should_track_file_path}
use prec.Collector.{
  FileOpenAttempt, IoAttempt, DupAttempt, OpenFileState, Processes, Files, Losses, Service,
  Settings, World,
}
use prec.Collector.Attempts.{take_file_open_attempt, take_dup_attempt, take_io_attempt}
use prec.Collector.Sample.{Sample}
use prec.Collector.Lost.{
  log_loss, stop_if, RunError, next_event_id, write_event, handle_lost_samples, log_lost_samples,
}
use prec.Collector.Process.{write_if_kept, or_stamp}
use prec.Collector.Open.{
  is_descriptor, resolve_regular_file, Opened, failed, passed_over, opened, build_file_base_event,
  open_event, remember_open_file, remember_open_file_fallback, open_state_at, duplicate,
  remember_duplicated_file,
}
use prec.Collector.Written.{
  known_path, refreshed, resolve_tracked_regular_file_path, save_event_of, save_event_at,
  save_event,
}
use prec.Collector.Loop.{record_file_event, handle_opened, handle_saved}

-- What holds of the state that is left, unless the daemon ends.
abbrev pub After : (Service → Type 0) → Result RunError Service → Type 0
After P (ok s) = P s
After P (err e) = Unit {0}

abbrev pub kept : Service → Processes × List CommandEvent × Losses
kept s = (s.processes, s.written, s.losses)

-- The maps on processes, what has been written and the counts of losses are as they were.
abbrev pub SameProcesses : Service → Service → Type 0
SameProcesses s t = kept t ≡ kept s

-- The maps on processes are as they were, and nothing that has been written is lost.
abbrev pub Grows : Service → Service → Type 0
Grows s t =
    (t.processes ≡ s.processes) × ((more : List CommandEvent) × (t.written ≡ s.written ++ more))

pub SameProcesses-Grows : (s t : Service) → SameProcesses s t → Grows s t
SameProcesses-Grows s t e = (
  ap (λ (p : Processes × List CommandEvent × Losses). p.0) e,
  ([], ap (λ (p : Processes × List CommandEvent × Losses). p.1) e ∙ sym (append-nil s.written)),
)

-- Other counts of losses change neither.
counts-Grows : (s : Service) (losses : Losses) → Grows s (record s { losses = losses })
counts-Grows s losses = (refl, ([], sym (append-nil s.written)))

pub Grows-trans : (s t u : Service) → Grows s t → Grows t u → Grows s u
Grows-trans s t u (p, (xs, e)) (q, (ys, f)) =
    (q ∙ p, (xs ++ ys, f ∙ (ap (λ w. w ++ ys) e ∙ append_assoc s.written xs ys)))

-- From a state that came before.
pub After-Grows :
    (s t : Service) (r : Result RunError Service)
    → Grows s t
    → After (Grows t) r
    → After (Grows s) r
After-Grows s t (ok u) g h = Grows-trans s t u g h
After-Grows s t (err x) g h = tt

After-bind :
    (s : Service) (r : Result RunError Service) (f : Service → Result RunError Service)
    → After (Grows s) r
    → ((t : Service) → After (Grows t) (f t))
    → After (Grows s) (r >>= f)
After-bind s (ok t) f h k = After-Grows s t (f t) h (k t)
After-bind s (err e) f h k = tt

same-After : (s t : Service) → SameProcesses s t → After (Grows s) (ok t)
same-After s t e = SameProcesses-Grows s t e

stop_if-Grows : (stop : Bool) (n total : ℕ) (s : Service) → After (Grows s) (stop_if stop n total s)
stop_if-Grows true n total s = tt
stop_if-Grows false n total s = SameProcesses-Grows s s refl

pub write_event-Grows :
    (world : World) (ev : CommandEvent) (s : Service) → After (Grows s) (write_event world ev s)
unfolding write_event
write_event-Grows world ev s = elim (Bool-cases (world.write_fails ev)) [
  | inl e ↦ rw e tt
  | inr e ↦ rw e (refl, (ev ∷ [], refl))
]

module _ (lower_rune : ℕ → ℕ) (settings : Settings) (world : World) where
  base-SameProcesses :
      (tgid : ℕ) (timestamp : Text) (s : Service)
      → SameProcesses s (build_file_base_event lower_rune settings world tgid timestamp s).1
  unfolding build_file_base_event next_event_id
  base-SameProcesses tgid timestamp s = ground arith

  pub open_event-SameProcesses :
      (tid : ℕ) (fd : ℤ) (timestamp : Text) (s : Service)
      → SameProcesses s (open_event lower_rune settings world tid fd timestamp s).1
  unfolding open_event take_file_open_attempt
  open_event-SameProcesses tid fd timestamp s =
      ground (arith, λ (a : FileOpenAttempt) (t : Text). base-SameProcesses a.tgid t s)

  open_state_at-SameProcesses :
      (tgid : ℕ) (fd : ℤ) (timestamp : Text) (s : Service)
      → SameProcesses s (open_state_at lower_rune settings world tgid fd timestamp s).1
  unfolding open_state_at
  open_state_at-SameProcesses tgid fd timestamp s =
      ground (arith, base-SameProcesses tgid timestamp s)

  pub fallback-SameProcesses :
      (tgid : ℕ) (fd : ℤ) (timestamp : Text) (s : Service)
      → SameProcesses s (remember_open_file_fallback lower_rune settings world tgid fd timestamp s)
  unfolding remember_open_file_fallback
  fallback-SameProcesses tgid fd timestamp s =
      ground (arith, open_state_at-SameProcesses tgid fd timestamp s)

  duplicate-SameProcesses :
      (a : DupAttempt) (s : Service) → SameProcesses s (duplicate lower_rune settings world a s)
  unfolding duplicate
  duplicate-SameProcesses a s = ground (arith, open_state_at-SameProcesses a.tgid a.oldfd [] s)

  pub duplicated-SameProcesses :
      (tid : ℕ) (s : Service)
      → SameProcesses s (remember_duplicated_file lower_rune settings world tid s)
  unfolding remember_duplicated_file take_dup_attempt
  duplicated-SameProcesses tid s =
      ground
        (arith, λ (a : DupAttempt) (f : Files). duplicate-SameProcesses a (record s { files = f }))

  refreshed-SameProcesses :
      (tgid : ℕ) (fd : ℤ) (mono : ℕ) (path : Text) (identity : FileIdentity)
      (state : Option OpenFileState) (s : Service)
      → SameProcesses s (refreshed tgid fd mono path identity state s)
  unfolding refreshed
  refreshed-SameProcesses tgid fd mono path identity none s = refl
  refreshed-SameProcesses tgid fd mono path identity (some state) s = ground arith

  tracked-SameProcesses :
      (tgid : ℕ) (fd : ℤ) (mono : ℕ) (s : Service)
      → SameProcesses s (resolve_tracked_regular_file_path world tgid fd mono s).1
  unfolding resolve_tracked_regular_file_path
  tracked-SameProcesses tgid fd mono s = elim (Bool-cases (is_descriptor tgid fd)) [
    | inr e ↦ rw e refl
    | inl e ↦ elim (Option-cases (known_path mono (s.files.open_files tgid fd))) [
      | inr (k, h) ↦ rw (e, h) refl
      | inl h ↦ elim (Option-cases (resolve_regular_file world tgid fd)) [
        | inl r ↦ rw (e, h, r) refl
        | inr ((path, identity), r) ↦ elim (Bool-cases (should_track_file_path path)) [
          | inl t ↦ rw (e, h, r, t) (refreshed-SameProcesses tgid fd mono path identity _ s)
          | inr t ↦ rw (e, h, r, t) refl
        ]
      ]
    ]
  ]

  save_event_of-SameProcesses :
      (a : IoAttempt) (bytes_count : ℤ) (mono : ℕ) (file : Text × FileIdentity) (ev : CommandEvent)
      (s : Service)
      → SameProcesses s (save_event_of lower_rune settings world a bytes_count mono file ev s).1
  unfolding save_event_of
  save_event_of-SameProcesses a bytes_count mono file ev s = ground arith

  save_event_at-SameProcesses :
      (a : IoAttempt) (bytes_count : ℤ) (mono : ℕ) (timestamp : Text) (s : Service)
      → SameProcesses s (save_event_at lower_rune settings world a bytes_count mono timestamp s).1
  unfolding save_event_at
  save_event_at-SameProcesses a bytes_count mono timestamp s =
      let tracked = resolve_tracked_regular_file_path world a.tgid a.fd mono s in
      let same = tracked-SameProcesses a.tgid a.fd mono s in
      let t = or_stamp world timestamp a.timestamp in
      let based = build_file_base_event lower_rune settings world a.tgid t tracked.1 in
      let same' = base-SameProcesses a.tgid t tracked.1 ∙ same in
      elim (Option-cases tracked.0) [
        | inl e ↦ rw (save_event_at, e) same
        | inr (file, e) ↦
            rw (save_event_at, e)
              (elim (Option-cases based.0) [
                | inl f ↦ rw f same'
                | inr (ev, f) ↦
                    rw f (save_event_of-SameProcesses a bytes_count mono file ev based.1 ∙ same')
              ])
      ]

  pub save_event-SameProcesses :
      (tid : ℕ) (bytes_count : ℤ) (mono : ℕ) (timestamp : Text) (s : Service)
      → SameProcesses s (save_event lower_rune settings world tid bytes_count mono timestamp s).1
  unfolding save_event take_io_attempt
  save_event-SameProcesses tid bytes_count mono timestamp s =
      elim (Bool-cases (leb_ℤ bytes_count (pos 0))) [
        | inl e ↦ rw e refl
        | inr e ↦ elim (Option-cases (s.files.pending_write tid)) [
          | inl h ↦ rw (e, h) refl
          | inr (a, h) ↦ rw (e, h) (save_event_at-SameProcesses a bytes_count mono timestamp _)
        ]
      ]

  pub write_if_kept-Grows :
      (ev : CommandEvent) (s : Service) → After (Grows s) (write_if_kept settings world ev s)
  unfolding write_if_kept
  write_if_kept-Grows ev s = elim (Bool-cases (keeps settings.matcher ev)) [
    | inl e ↦ rw e (write_event-Grows world ev s)
    | inr e ↦ rw e (SameProcesses-Grows s s refl)
  ]

  record_file_event-Grows :
      (ev : CommandEvent) (s : Service)
      → After (Grows s) (record_file_event lower_rune settings world ev s)
  unfolding record_file_event
  record_file_event-Grows ev s =
      elim (Bool-cases (should_record_file_event lower_rune world.user_home settings.cfg ev)) [
        | inl e ↦ rw e (write_if_kept-Grows ev s)
        | inr e ↦ rw e (SameProcesses-Grows s s refl)
      ]

  pub handle_opened-Grows :
      (sample : Sample) (timestamp : Text) (o : Opened) (s : Service)
      → After (Grows s) (handle_opened lower_rune settings world sample timestamp (o, s))
  unfolding handle_opened
  handle_opened-Grows sample timestamp failed s = SameProcesses-Grows s s refl
  handle_opened-Grows sample timestamp passed_over s =
      SameProcesses-Grows s
        (remember_open_file_fallback lower_rune settings world sample.tgid sample.status timestamp
          s)
        (fallback-SameProcesses sample.tgid sample.status timestamp s)
  handle_opened-Grows sample timestamp (opened ev) s =
      let r = remember_open_file lower_rune settings world sample.tgid sample.status ev s in
      let same : SameProcesses s r = unfold remember_open_file in ground arith in
      elim (Bool-cases settings.cfg.collect_file_open) [
        | inl e ↦
            rw e (After-Grows s r _ (SameProcesses-Grows s r same) (record_file_event-Grows ev r))
        | inr e ↦ rw e (SameProcesses-Grows s r same)
      ]

  pub handle_saved-Grows :
      (ev : Option CommandEvent) (s : Service)
      → After (Grows s) (handle_saved lower_rune settings world (ev, s))
  unfolding handle_saved
  handle_saved-Grows none s = SameProcesses-Grows s s refl
  handle_saved-Grows (some ev) s = record_file_event-Grows ev s

  log_loss-Grows :
      (stop : Bool) (n total : ℕ) (consumed : Option ℕ × Losses) (s : Service)
      → After (Grows s) (log_loss settings world stop n total consumed s)
  unfolding log_loss next_event_id
  log_loss-Grows stop n total (none, losses) s =
      After-Grows s (record s { losses = losses }) (stop_if stop n total _) (counts-Grows s losses)
        (stop_if-Grows stop n total _)
  log_loss-Grows stop n total (some v, losses) s =
      let s' : Service = (next_event_id settings (record s { losses = losses })).1 in
      After-bind s (write_event world _ s') (stop_if stop n total)
        (After-Grows s s' (write_event world _ s') (counts-Grows s losses)
          (write_event-Grows world _ s'))
        (stop_if-Grows stop n total)

  pub handle_lost_samples-Grows :
      (n : ℕ) (s : Service) → After (Grows s) (handle_lost_samples settings world n s)
  unfolding handle_lost_samples log_lost_samples
  handle_lost_samples-Grows n s =
      let total = (s.losses.lost_total + n) % 2 ^ 64 in
      let s' : Service = record s { losses = record (s.losses) { lost_total = total } } in
      elim (Bool-cases (
        equal
          (if is_empty settings.cfg.lost_samples_action
            then codes "log"
            else settings.cfg.lost_samples_action)
          (codes "ignore"))) [
            | inl e ↦ rw (After, e) (counts-Grows s s'.losses)
            | inr e ↦
                rw (After, e)
                  (After-Grows s s' (log_loss settings world _ n total _ s')
                    (counts-Grows s s'.losses) (log_loss-Grows _ n total _ s'))
          ]
