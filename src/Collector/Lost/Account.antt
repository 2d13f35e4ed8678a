-- ===== src/Collector/Lost/Account.antt =====
-- internal/collector/collector_linux.go: the samples that are lost in a run of `Service.Run`, whatever other
-- samples stand between them.
use prec.Base.{
  ℕ, ◌+◌, ◌≤◌, ◌≡◌, refl, sym, false, List, [], ◌∷◌, arith, ◌==◌, Every, Result, ok, err,
  bind-eq-ok, ok_injective,
}
use mathlib.Core.Path.{subst}
use prec.Text.{codes, equal}
use prec.Text.Number.{max_int64}
use prec.Collector.{Service, Settings, World}
use prec.Collector.Frame.{After, Grows, SameProcesses-Grows, handle_lost_samples-Grows}
use prec.Collector.Told.Round.{either-After}
use prec.Collector.Process.{stamp}
use prec.Collector.Lost.{RunError, handle_lost_samples}
use prec.Collector.Lost.Ledger.{accounted, handle-accounted}
use prec.Collector.Lost.Samples.{Clean, BuildsNoLoss, Even}
use prec.Collector.Lost.Handlers.{handle_sample-Even}
use prec.Collector.Loop.{Record, lost, sampled, handle, run}

-- The samples that are lost among the records.
abbrev pub lost_in : Record → ℕ
lost_in (lost n) = n
lost_in (sampled p) = 0

abbrev pub sum_lost : List (World × Record) → ℕ
sum_lost [] = 0
sum_lost ((world, r) ∷ records) = lost_in r + sum_lost records

handle_lost-Clean :
    (lower_rune : ℕ → ℕ) (settings : Settings) (world : World) (n : ℕ) (s : Service)
    → Clean s.processes
    → After (λ t. Clean t.processes) (handle lower_rune settings world (lost n) s)
unfolding handle
handle_lost-Clean lower_rune settings world n s clean = clean_after _ (
    either-After (Grows s) (n == 0) (ok s) (handle_lost_samples settings world n s)
      (SameProcesses-Grows s s refl) (handle_lost_samples-Grows lower_rune settings world n s))
  where
    clean_after :
        (r : Result RunError Service) → After (Grows s) r → After (λ t. Clean t.processes) r
    clean_after (ok t) g = subst Clean (sym g.0) clean
    clean_after (err x) g = tt

-- One round accounts for the samples that its record tells are lost.
round-accounted :
    (lower_rune : ℕ → ℕ) (settings : Settings) (world : World) (r : Record) (s t : Service)
    → equal settings.cfg.lost_samples_action (codes "ignore") ≡ false
    → BuildsNoLoss world
    → Clean s.processes
    → s.losses.pending_lost_log + lost_in r ≤ max_int64
    → handle lower_rune settings world r s ≡ ok t
    → (accounted t ≡ accounted s + lost_in r) × Clean t.processes
unfolding handle
round-accounted lower_rune settings world (lost n) s t log builds clean bound e = (
  handle-accounted lower_rune settings world n s t log bound e,
  subst (After (λ u. Clean u.processes)) e (handle_lost-Clean lower_rune settings world n s clean),
)
round-accounted lower_rune settings world (sampled p) s t log builds clean bound e =
    let timestamp = stamp world p.kernel_mono_ns in
    let even =
      subst (After (Even s)) e
        (handle_sample-Even lower_rune settings world builds p.event_type p timestamp s clean) in
    (omega (arith, even.0), even.1)

-- Of a run over any records, counts of lost samples and other samples in any order, with an action other
-- than to ignore what is lost: if no event that is built for a process or for a failed exec counts lost
-- samples itself, nor does any start event that is kept at first, and if all counts together fit in an
-- int64, then if the loop goes on to the end, what the written events report and what still has to be
-- reported have grown by exactly the number of samples that were lost.
pub run-accounted :
    (lower_rune : ℕ → ℕ) (settings : Settings) (records : List (World × Record)) (s t : Service)
    → equal settings.cfg.lost_samples_action (codes "ignore") ≡ false
    → Every (λ (x : World × Record). BuildsNoLoss x.0) records
    → Clean s.processes
    → accounted s + sum_lost records ≤ max_int64
    → run lower_rune settings records s ≡ ok t
    → accounted t ≡ accounted s + sum_lost records
unfolding run
run-accounted lower_rune settings [] s t log builds clean bound e =
    rw (sym (ok_injective {E = RunError} e)) (omega arith)
run-accounted lower_rune settings ((world, r) ∷ records) s t log builds clean bound e =
    let (u, h, k) =
      bind-eq-ok (handle lower_rune settings world r s) (λ w. run lower_rune settings records w)
        e in
    let one = round-accounted lower_rune settings world r s u log builds.0 clean (omega arith) h in
    let rest =
      run-accounted lower_rune settings records u t log builds.1 one.1 (omega (arith, one.0)) k in
    omega (arith, one.0, rest)
