-- ===== src/Collector/Saves/History.antt =====
-- internal/collector/collector_linux.go: repeated saves, against the saves that have been let through.
use prec.Base.{
  ℕ, ◌-◌, ◌≤◌, ◌<◌, ◌≡◌, refl, ap, ◌∙◌, inl, inr, Bool, false, not, ◌&&◌, ◌||◌, Option, none, some,
  List, [], ◌∷◌, arith, ltb, leb, ◌==◌, if◌then◌else◌, Bool-cases, ℤ, pos, leb_ℤ,
}
use prec.Text.{Text, is_empty, equal, equal_iff, trim_space}
use prec.Text.Path.{clean}
use prec.Collector.{Files}
use prec.Collector.Saves.{
  minus64, unless_old, collect_old, repeats, save_at, suppress_repeated, window_ns,
  should_suppress_duplicate_file_save,
}

-- A save of a file by a process.
pub record Save : Type 0 where
  pub tgid : ℕ
  pub path : Text
  pub mono : ℕ

-- Whether one of the saves is of the same file by the same process, less than a window before.
abbrev recent_in : ℕ → ℕ → Text → ℕ → List Save → Bool
recent_in window tgid path mono [] = false
recent_in window tgid path mono (h ∷ history) =
    ((tgid == h.tgid && equal path h.path) && ltb (mono - h.mono) window)
    || recent_in window tgid path mono history

recent_in_earlier :
    (window tgid : ℕ) (path : Text) (m n : ℕ) (history : List Save)
    → m ≤ n
    → recent_in window tgid path m history ≡ false
    → recent_in window tgid path n history ≡ false
recent_in_earlier window tgid path m n [] le e = refl
recent_in_earlier window tgid path m n (h ∷ history) le e =
    let ih = recent_in_earlier window tgid path m n history le in ground arith

-- The map answers for every later time as the history does.
abbrev Remembers : ℕ → ℕ → Files → List Save → Type 0
Remembers window now f history =
    (tgid : ℕ) (path : Text) (mono : ℕ)
    → now ≤ mono
    → 0 < mono
    → repeats window mono (f.recent_file_saves tgid path) ≡ recent_in window tgid path mono history

repeats-unless_old :
    (window now mono : ℕ) (o : Option ℕ)
    → 0 < window
    → now ≤ mono
    → 0 < mono
    → repeats window mono (unless_old (now - window) o) ≡ repeats window mono o
repeats-unless_old window now mono none w le z = refl
repeats-unless_old window now mono (some last) w le z = ground arith

collect_old-Remembers :
    (window before now : ℕ) (f : Files) (history : List Save)
    → 0 < window
    → before ≤ now
    → Remembers window before f history
    → Remembers window now (collect_old window now f) history
unfolding collect_old
collect_old-Remembers window before now f history w le r tgid path mono le' z =
    let due =
      not (now == 0)
      && (f.last_file_save_gc == 0 || leb window (minus64 now f.last_file_save_gc)) in
    elim (Bool-cases due) [
      | inl e ↦
          rw (collect_old, e)
            (repeats-unless_old window now mono (f.recent_file_saves tgid path) w le' z
              ∙ r tgid path mono (omega arith) z)
      | inr e ↦ rw (collect_old, e) (r tgid path mono (omega arith) z)
    ]

-- A save that is let through.
save_at-Remembers :
    (window now : ℕ) (f : Files) (history : List Save) (h : Save)
    → 0 < window
    → h.mono ≡ now
    → Remembers window now f history
    → recent_in window h.tgid h.path now history ≡ false
    → Remembers window now (save_at h.tgid h.path h.mono f) (h ∷ history)
save_at-Remembers window now f history h w at_now r new tgid path mono le z =
    elim (Bool-cases (tgid == h.tgid && equal path h.path)) [
      | inr e ↦ rw e (r tgid path mono le z)
      | inl e ↦
          let same : tgid ≡ h.tgid = ground arith in
          let same' : path ≡ h.path = (equal_iff path h.path).0 (ground arith) in
          let older : recent_in window tgid path mono history ≡ false =
            rw (same, same') (recent_in_earlier window h.tgid h.path now mono history le new) in
          rw (e, older) (ground arith)
    ]

-- The saves of the map are those of the history, once the guards are passed.
suppress_repeated-Remembers :
    (window before : ℕ) (f : Files) (history : List Save) (h : Save)
    → 0 < window
    → 0 < h.mono
    → before ≤ h.mono
    → Remembers window before f history
    → let repeated = recent_in window h.tgid h.path h.mono history in
      let answer = suppress_repeated window h.tgid h.path h.mono f in
      (answer.0 ≡ repeated)
      × Remembers window h.mono answer.1 (if repeated then history else h ∷ history)
unfolding suppress_repeated
suppress_repeated-Remembers window before f history h w z le r =
    let kept = collect_old window h.mono f in
    let still = collect_old-Remembers window before h.mono f history w le r in
    let same = still h.tgid h.path h.mono (omega arith) z in
    elim (Bool-cases (recent_in window h.tgid h.path h.mono history)) [
      | inl e ↦ rw (e, same ∙ e) (refl, still)
      | inr e ↦
          rw (e, same ∙ e) (refl, save_at-Remembers window h.mono kept history h w refl still e)
    ]

-- A save that the guards let through, whatever came before.
abbrev unguarded : ℤ → Save → Bool
unguarded window_sec h = leb_ℤ window_sec (pos 0) || h.tgid == 0 || is_empty (trim_space h.path)

abbrev cleaned : Save → Save
cleaned h = record h { path = clean (trim_space h.path) }

-- What the code answers to saves one after the other.
unfoldable pub answers : ℤ → List Save → Files → List Bool
unfolding should_suppress_duplicate_file_save
answers window_sec [] f = []
answers window_sec (h ∷ saves) f =
    let (repeated, f') = should_suppress_duplicate_file_save window_sec h.tgid h.path h.mono f in
    repeated ∷ answers window_sec saves f'

-- The same by the saves that have been let through: one is a repetition exactly if one of these is of the
-- same file by the same process, less than a window before.
unfoldable pub by_history : ℤ → List Save → List Save → List Bool
unfolding clean trim_space equal
by_history window_sec [] history = []
by_history window_sec (h ∷ saves) history =
    let repeated =
      not (unguarded window_sec h)
      && recent_in (window_ns window_sec) h.tgid (cleaned h).path h.mono history in
    repeated
    ∷ by_history window_sec saves
        (if unguarded window_sec h || repeated then history else cleaned h ∷ history)

-- Times that do not decrease, and are not 0.
abbrev Increasing : ℕ → List Save → Type 0
Increasing before [] = Unit
Increasing before (h ∷ saves) = (before ≤ h.mono) × (0 < h.mono) × Increasing h.mono saves

later :
    (window before now : ℕ) (f : Files) (history : List Save)
    → before ≤ now
    → Remembers window before f history
    → Remembers window now f history
later window before now f history le r tgid path mono le' z = r tgid path mono (omega arith) z

answers-history :
    (window_sec : ℤ) (before : ℕ) (saves : List Save) (f : Files) (history : List Save)
    → Increasing before saves
    → Remembers (window_ns window_sec) before f history
    → answers window_sec saves f ≡ by_history window_sec saves history
unfolding answers by_history
answers-history window_sec before [] f history i r = refl
answers-history window_sec before (h ∷ saves) f history (le, z, i) r =
    elim (Bool-cases (unguarded window_sec h)) [
      | inl e ↦
          rw (should_suppress_duplicate_file_save, e)
            (ap (λ rest. false ∷ rest)
              (answers-history window_sec h.mono saves f history i
                (later (window_ns window_sec) before h.mono f history le r)))
      | inr e ↦
          let w : 0 < window_ns window_sec = ground arith in
          let (same, next) =
            suppress_repeated-Remembers (window_ns window_sec) before f history (cleaned h) w z le
              r in
          rw (should_suppress_duplicate_file_save, e, same)
            (ap
              (λ rest.
                recent_in (window_ns window_sec) h.tgid (cleaned h).path h.mono history ∷ rest)
              (answers-history window_sec h.mono saves
                (suppress_repeated (window_ns window_sec) h.tgid (cleaned h).path h.mono f).1 _ i
                next))
    ]

-- From a state without recent saves, on saves whose times do not decrease and are not 0:
-- `shouldSuppressDuplicateFileSave` suppresses exactly the saves of a file, by a process, that come less
-- than a window behind one of the same file by the same process that it has let through; a save that the
-- guards let through is not counted as one of these. So the removal of old entries loses nothing.
pub should_suppress_duplicate_file_save-by_history :
    (window_sec : ℤ) (saves : List Save) (f : Files)
    → ((tgid : ℕ) (path : Text) → f.recent_file_saves tgid path ≡ none)
    → Increasing 0 saves
    → answers window_sec saves f ≡ by_history window_sec saves []
should_suppress_duplicate_file_save-by_history window_sec saves f fresh i =
    answers-history window_sec 0 saves f [] i (λ tgid path mono le z. rw (fresh tgid path) refl)
