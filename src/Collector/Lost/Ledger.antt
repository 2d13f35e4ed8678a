-- ===== src/Collector/Lost/Ledger.antt =====
-- internal/collector/collector_linux.go: the samples that are lost, against those that are reported.
use prec.Base.{
  ℕ, ◌+◌, ◌%◌, ◌^◌, ◌≤◌, ◌≡◌, refl, sym, ap, ◌∙◌, inl, inr, Bool, true, false, Option, none, some,
  List, [], ◌∷◌, ◌++◌, arith, ltb, ◌==◌, Bool-cases, ℤ, pos_part, ok, bind-eq-ok, ok_injective,
}
use prec.Text.{codes, is_empty, equal}
use prec.Text.Number.{max_int64}
use prec.Event.{CommandEvent}
use prec.Event.Build.{build_collector_loss_event, saturating_uint64_to_int64}
use prec.Collector.{Losses, Service, Settings, World}
use prec.Collector.Lost.{
  RunError, next_event_id, write_event, consume_lost_samples_for_log, logged_lately, stop_if,
  log_loss, log_lost_samples, handle_lost_samples,
}
use prec.Collector.Loop.{lost, handle}

-- The lost samples that one event reports.
abbrev reported_by : Option ℤ → ℕ
reported_by none = 0
reported_by (some n) = pos_part n

-- The lost samples that all events report.
abbrev pub reported : List CommandEvent → ℕ
reported [] = 0
reported (ev ∷ events) = reported_by ev.lost_samples + reported events

pub reported-append : (xs ys : List CommandEvent) → reported (xs ++ ys) ≡ reported xs + reported ys
reported-append [] ys = omega arith
reported-append (ev ∷ xs) ys = omega (arith, reported-append xs ys)

-- The lost samples that are reported, and those that still have to be.
abbrev pub accounted : Service → ℕ
accounted s = reported s.written + s.losses.pending_lost_log

stop_if-ok : (stop : Bool) (n total : ℕ) (s t : Service) → stop_if stop n total s ≡ ok t → t ≡ s
stop_if-ok true n total s t e = cc
stop_if-ok false n total s t e = sym (ok_injective {E = RunError} e)

-- An event that is written reports what it says.
write_event-accounted :
    (world : World) (ev : CommandEvent) (s t : Service)
    → write_event world ev s ≡ ok t
    → accounted t ≡ accounted s + reported_by ev.lost_samples
unfolding write_event
write_event-accounted world ev s t e = elim (Bool-cases (world.write_fails ev)) [
  | inl f ↦ cc (rw f at e)
  | inr f ↦
      rw (sym (ok_injective {E = RunError} (rw f at e)))
        (omega (arith, reported-append s.written (ev ∷ [])))
]

log_loss-accounted :
    (settings : Settings) (world : World) (stop : Bool) (n total v : ℕ) (losses : Losses)
    (s t : Service)
    → v ≤ max_int64
    → log_loss settings world stop n total (some v, losses) s ≡ ok t
    → accounted t ≡ reported s.written + losses.pending_lost_log + v
unfolding log_loss next_event_id build_collector_loss_event saturating_uint64_to_int64
log_loss-accounted settings world stop n total v losses s t bound e =
    let x = next_event_id settings (record s { losses = losses }) in
    let ev : CommandEvent =
      record (build_collector_loss_event world.now_text world.identity v total) {
        event_id = x.0;
      } in
    let (u, hu, hk) = bind-eq-ok (write_event world ev x.1) (λ w. stop_if stop n total w) e in
    let small : ltb max_int64 v ≡ false = ground arith in
    rw (stop_if-ok stop n total u t hk, write_event-accounted world ev x.1 u hu, small) refl

log_lost_samples-accounted :
    (settings : Settings) (world : World) (stop : Bool) (n total : ℕ) (s t : Service)
    → s.losses.pending_lost_log + n ≤ max_int64
    → log_lost_samples settings world stop n total s ≡ ok t
    → accounted t ≡ accounted s + n
unfolding log_lost_samples consume_lost_samples_for_log
log_lost_samples-accounted settings world stop n total s t bound e =
    let pending : (s.losses.pending_lost_log + n) % 2 ^ 64 ≡ s.losses.pending_lost_log + n =
      omega arith in
    elim (Bool-cases (logged_lately world.now s.losses.last_lost_log_at)) [
      | inl h ↦
          let consumed : consume_lost_samples_for_log world.now n s.losses ≡ (
            none,
            record (s.losses) { pending_lost_log = (s.losses.pending_lost_log + n) % 2 ^ 64 },
          ) =
            rw h refl in
          let kept =
            stop_if-ok stop n total _ t
              (sym (ap (λ c. log_loss settings world stop n total c s) consumed) ∙ e) in
          rw kept (omega (arith, pending))
      | inr h ↦
          let consumed : consume_lost_samples_for_log world.now n s.losses ≡ (
            some ((s.losses.pending_lost_log + n) % 2 ^ 64),
            record (s.losses) { pending_lost_log = 0; last_lost_log_at = some world.now },
          ) =
            rw h refl in
          let written =
            log_loss-accounted settings world stop n total
              ((s.losses.pending_lost_log + n) % 2 ^ 64)
              (record (s.losses) { pending_lost_log = 0; last_lost_log_at = some world.now }) s t
              (omega (arith, pending))
              (sym (ap (λ c. log_loss settings world stop n total c s) consumed) ∙ e) in
          omega (arith, written, pending)
    ]

-- One record that tells of lost samples.
pub handle-accounted :
    (lower_rune : ℕ → ℕ) (settings : Settings) (world : World) (n : ℕ) (s t : Service)
    → equal settings.cfg.lost_samples_action (codes "ignore") ≡ false
    → s.losses.pending_lost_log + n ≤ max_int64
    → handle lower_rune settings world (lost n) s ≡ ok t
    → accounted t ≡ accounted s + n
unfolding handle handle_lost_samples
handle-accounted lower_rune settings world n s t log bound e =
    let total = (s.losses.lost_total + n) % 2 ^ 64 in
    let s' : Service = record s { losses = record (s.losses) { lost_total = total } } in
    elim (Bool-cases (n == 0)) [
      | inl z ↦
          let zero_lost : n ≡ 0 = ground arith in
          rw (sym (ok_injective {E = RunError} (rw z at e))) (omega arith)
      | inr z ↦ elim (Bool-cases (is_empty settings.cfg.lost_samples_action)) [
        | inl a ↦
            log_lost_samples-accounted settings world false n total s' t bound
              (rw (z, handle_lost_samples, a) at e)
        | inr a ↦
            log_lost_samples-accounted settings world
              (equal settings.cfg.lost_samples_action (codes "stop")) n total s' t bound
              (rw (z, handle_lost_samples, a, log) at e)
      ]
    ]
