-- ===== src/Collector/Lost.antt =====
-- internal/collector/collector_linux.go: samples that the kernel has dropped.
pub mod Ledger
pub mod Samples
pub mod Handlers
pub mod Account
use prec.Base.{
  ℕ, zero, suc, ◌+◌, ◌-◌, ◌*◌, ◌/◌, ◌%◌, ◌^◌, ◌≤◌, ◌<◌, min, String, ◌≡◌, refl, sym, ap, ap₂, ◌∙◌,
  ◌≡⟨◌⟩◌, ◌∎, ◌≢◌, ◌↔◌, ◌⊎◌, inl, inr, Bool, true, false, not, ◌&&◌, ◌||◌, Option, none, some, List,
  [], ◌∷◌, ◌++◌, map, append-nil, append_assoc, arith, ltb, leb, ◌==◌, if◌then◌else◌, Bool-cases,
  Option-cases, ==_iff, ltb→lt, lt→ltb, leb→le, tests, length, get_elem?, get_or, set, take, drop,
  replicate, length-append, ℤ, pos, negsuc, pos_part, neg_part, ltb_ℤ, leb_ℤ, eqb_ℤ, ◌≤ℤ◌,
  eqb_ℤ_iff, Result, ok, err, ◌>>=◌, bind-eq-ok, map_result, Result-cases, ok_injective,
  bind_ok-eq-err,
}
use prec.Text.{Text, codes, is_empty, equal}
use prec.Text.Number.{decimal}
use prec.Event.{CommandEvent}
use prec.Event.Build.{build_collector_loss_event}
use prec.Collector.{Losses, Service, Settings, World}

-- An error of `Run`, which ends the daemon.
pub data RunError : Type 0 where
  write_failed : CommandEvent → RunError
  lost_samples : ℕ → ℕ → RunError

-- `nextEventID`; the counter is a uint64.
unfoldable pub next_event_id : Settings → Service → Text × Service
unfolding decimal
next_event_id settings s =
    let seq = (s.event_seq + 1) % 2 ^ 64 in
    (settings.event_id_prefix ++ (b'-' ∷ decimal seq), record s { event_seq = seq })

-- `writer.WriteEvent`
unfoldable pub write_event : World → CommandEvent → Service → Result RunError Service
write_event world ev s =
    if world.write_fails ev
    then err (write_failed ev)
    else ok (record s { written = s.written ++ (ev ∷ []) })

-- `lostSamplesLogInterval`, in nanoseconds.
abbrev lost_samples_log_interval : ℕ
lost_samples_log_interval = 1000000000

-- `now.Sub(lastLostLogAt) < lostSamplesLogInterval`, and false for the zero time.
abbrev pub logged_lately : ℤ → Option ℤ → Bool
logged_lately now none = false
logged_lately now (some last) =
    ltb (pos_part now + neg_part last) (pos_part last + neg_part now + lost_samples_log_interval)

-- `consumeLostSamplesForLog`; `none` is `0, false`.
unfoldable pub consume_lost_samples_for_log : ℤ → ℕ → Losses → Option ℕ × Losses
consume_lost_samples_for_log now lost l =
    let pending = (l.pending_lost_log + lost) % 2 ^ 64 in
    if logged_lately now l.last_lost_log_at
    then (none, record l { pending_lost_log = pending })
    else (some pending, record l { pending_lost_log = 0; last_lost_log_at = some now })

abbrev pub stop_if : Bool → ℕ → ℕ → Service → Result RunError Service
stop_if stop lost total s = if stop then err (lost_samples lost total) else ok s

-- `handleLostSamples` behind `consumeLostSamplesForLog`.
unfoldable pub log_loss :
    Settings → World → Bool → ℕ → ℕ → Option ℕ × Losses → Service → Result RunError Service
unfolding next_event_id write_event build_collector_loss_event
log_loss settings world stop lost total (none, losses) s =
    stop_if stop lost total (record s { losses = losses })
log_loss settings world stop lost total (some v, losses) s =
    let (event_id, s') = next_event_id settings (record s { losses = losses }) in
    write_event world
      (record (build_collector_loss_event world.now_text world.identity v total) {
        event_id = event_id;
      })
      s'
    >>= stop_if stop lost total

-- `handleLostSamples` once it is not to be ignored.
unfoldable pub log_lost_samples :
    Settings → World → Bool → ℕ → ℕ → Service → Result RunError Service
unfolding consume_lost_samples_for_log log_loss
log_lost_samples settings world stop lost total s =
    log_loss settings world stop lost total (consume_lost_samples_for_log world.now lost s.losses) s

-- `handleLostSamples`
unfoldable pub handle_lost_samples : Settings → World → ℕ → Service → Result RunError Service
unfolding log_lost_samples equal
handle_lost_samples settings world lost s =
    let total = (s.losses.lost_total + lost) % 2 ^ 64 in
    let s' : Service = record s { losses = record (s.losses) { lost_total = total } } in
    let action =
      if is_empty settings.cfg.lost_samples_action
      then codes "log"
      else settings.cfg.lost_samples_action in
    if equal action (codes "ignore")
    then ok s'
    else log_lost_samples settings world (equal action (codes "stop")) lost total s'
