-- ===== src/Collector/Between.antt =====
-- internal/collector/collector_linux.go: what the records between the start and the end of a
-- process tell of it, and what they leave alone.
use prec.Base.{
  ℕ, ◌≡◌, refl, sym, ap, ◌∙◌, inl, inr, false, Option, none, some, List, [], ◌∷◌, ◌++◌, append-nil,
  append_assoc, arith, Result, ok, err, ◌>>=◌, bind-eq-ok, Result-cases, ok_injective,
}
use prec.Collector.{Service, Settings, World}
use prec.Collector.Lost.{RunError}
use prec.Collector.Process.{normalize_exit_status}
use prec.Collector.Loop.{Record, handle, run}
use prec.Collector.Frame.{After}
use prec.Collector.Told.{
  Told, nothing, one_thread, all_threads, tells, starts_or_ends, next_status, unchanged, Follows,
}
use prec.Collector.Told.Round.{handle-Follows}

abbrev pub or_else : Option ℕ → Option ℕ → Option ℕ
or_else none y = y
or_else (some n) y = some n

abbrev of_all : Told → Option ℕ
of_all (all_threads status) = some (normalize_exit_status status)
of_all _ = none

abbrev of_one : Told → Option ℕ
of_one (one_thread status) = some (normalize_exit_status status)
of_one _ = none

-- The last status that is told of all threads of process `p`.
abbrev last_of_all : ℕ → List (World × Record) → Option ℕ
last_of_all p [] = none
last_of_all p ((world, r) ∷ rest) = or_else (last_of_all p rest) (of_all (tells p r))

-- The first status that is told of one of its threads.
abbrev first_of_one : ℕ → List (World × Record) → Option ℕ
first_of_one p [] = none
first_of_one p ((world, r) ∷ rest) = or_else (of_one (tells p r)) (first_of_one p rest)

-- The exit status of a process: the last of all its threads, or else the first of one of them.
abbrev pub exit_status_in : ℕ → List (World × Record) → Option ℕ
exit_status_in p steps = or_else (last_of_all p steps) (first_of_one p steps)

-- The same behind a status that is known.
abbrev status_behind : ℕ → List (World × Record) → Option ℕ → Option ℕ
status_behind p steps x = or_else (last_of_all p steps) (or_else x (first_of_one p steps))

next_status-behind :
    (last first x : Option ℕ) (told : Told)
    → or_else last (or_else (next_status x told) first)
      ≡ or_else (or_else last (of_all told)) (or_else x (or_else (of_one told) first))
next_status-behind (some n) first x told = refl
next_status-behind none first x nothing = ground arith
next_status-behind none first x (all_threads status) = refl
next_status-behind none first none (one_thread status) = refl
next_status-behind none first (some n) (one_thread status) = refl

-- Processes other than `p`, and its threads, as they are between its start and its end.
abbrev pub Between : ℕ → List (World × Record) → Type 0
Between p [] = Unit
Between p ((world, r) ∷ rest) = (starts_or_ends p r ≡ false) × Between p rest

Follows-trans :
    (p : ℕ) (f g : Option ℕ → Option ℕ) (s t u : Service)
    → Follows p f s t
    → Follows p g t u
    → Follows p (λ x. g (f x)) s u
Follows-trans p f g s t u h k = record {
  event = k.event ∙ h.event;
  start = k.start ∙ h.start;
  status = k.status ∙ ap g h.status;
  grows = (
    h.grows.0 ++ k.grows.0,
    k.grows.1 ∙ (ap (λ w. w ++ k.grows.0) h.grows.1 ∙ append_assoc s.written h.grows.0 k.grows.0),
  );
}

told_alike :
    (p : ℕ) (f g : Option ℕ → Option ℕ) (s t : Service)
    → ((x : Option ℕ) → f x ≡ g x)
    → Follows p f s t
    → Follows p g s t
told_alike p f g s t e h = record {
  event = h.event;
  start = h.start;
  status = h.status ∙ e (s.processes.pending_statuses p);
  grows = h.grows;
}

after_ok :
    (P : Service → Type 0) (r : Result RunError Service) (t : Service) → After P r → r ≡ ok t → P t
after_ok P (ok a) t h e = rw (sym (ok_injective {E = RunError} e)) h
after_ok P (err x) t h e = cc

module _ (lower_rune : ℕ → ℕ) (settings : Settings) where
  pub run-append :
      (xs ys : List (World × Record)) (s : Service)
      → run lower_rune settings (xs ++ ys) s
        ≡ (run lower_rune settings xs s >>= λ t. run lower_rune settings ys t)
  unfolding run
  run-append [] ys s = refl
  run-append ((world, r) ∷ xs) ys s = elim (Result-cases (handle lower_rune settings world r s)) [
    | inl (t, e) ↦ rw e (run-append xs ys t)
    | inr (x, e) ↦ rw e refl
  ]

  pub run-Follows :
      (p : ℕ) (steps : List (World × Record)) (s t : Service)
      → Between p steps
      → run lower_rune settings steps s ≡ ok t
      → Follows p (status_behind p steps) s t
  unfolding run
  run-Follows p [] s t b e =
      told_alike p unchanged (λ x. or_else x none) s t (λ x. ground arith)
        (rw (sym (ok_injective {E = RunError} e)) (record {
          event = refl;
          start = refl;
          status = refl;
          grows = ([], sym (append-nil s.written));
        }))
  run-Follows p ((world, r) ∷ rest) s t b e =
      let (u, h, k) =
        bind-eq-ok (handle lower_rune settings world r s) (λ s'. run lower_rune settings rest s')
          e in
      let told : Option ℕ → Option ℕ = λ x. next_status x (tells p r) in
      told_alike p (λ x. status_behind p rest (told x)) (status_behind p ((world, r) ∷ rest)) s t
        (λ x. next_status-behind (last_of_all p rest) (first_of_one p rest) x (tells p r))
        (Follows-trans p told (status_behind p rest) s u t
          (after_ok (Follows p told s) (handle lower_rune settings world r s) u
            (handle-Follows lower_rune settings world p r s b.0) h)
          (run-Follows p rest u t b.1 k))
