-- ===== src/Collector/Saves.antt =====
-- internal/collector/collector_linux.go: repeated saves of one file within a window.
pub mod History
use prec.Base.{
  ℕ, zero, suc, ◌+◌, ◌-◌, ◌*◌, ◌/◌, ◌%◌, ◌^◌, ◌≤◌, ◌<◌, min, String, ◌≡◌, refl, sym, ap, ap₂, ◌∙◌,
  ◌≡⟨◌⟩◌, ◌∎, ◌≢◌, ◌↔◌, ◌⊎◌, inl, inr, Bool, true, false, not, ◌&&◌, ◌||◌, Option, none, some, List,
  [], ◌∷◌, ◌++◌, map, append-nil, append_assoc, arith, ltb, leb, ◌==◌, if◌then◌else◌, Bool-cases,
  Option-cases, ==_iff, ltb→lt, lt→ltb, leb→le, tests, length, get_elem?, get_or, set, take, drop,
  replicate, length-append, ℤ, pos, negsuc, pos_part, neg_part, ltb_ℤ, leb_ℤ, eqb_ℤ, ◌≤ℤ◌,
  eqb_ℤ_iff, Result, ok, err, ◌>>=◌, bind-eq-ok, map_result, Result-cases, ok_injective,
  bind_ok-eq-err,
}
use prec.Text.{Text, is_empty, equal, trim_space}
use prec.Text.Path.{clean}
use prec.Collector.{Files}

-- A difference of two uint64.
abbrev pub minus64 : ℕ → ℕ → ℕ
minus64 a b = (a + 2 ^ 64 - b) % 2 ^ 64

-- `lastMonoNS < cutoff`
abbrev pub unless_old : ℕ → Option ℕ → Option ℕ
unless_old cutoff none = none
unless_old cutoff (some last) = if ltb last cutoff then none else some last

-- The removal of old entries; it is due once in a window.
unfoldable pub collect_old : ℕ → ℕ → Files → Files
collect_old window mono f =
    if not (mono == 0)
      && (f.last_file_save_gc == 0 || leb window (minus64 mono f.last_file_save_gc))
    then record f {
      recent_file_saves = λ t path. unless_old (mono - window) (f.recent_file_saves t path);
      last_file_save_gc = mono;
    }
    else f

-- Whether a save at a time repeats the last one.
abbrev pub repeats : ℕ → ℕ → Option ℕ → Bool
repeats window mono none = false
repeats window mono (some last) =
    (not (mono == 0) && leb mono last) || (not (mono == 0) && ltb (mono - last) window) || mono == 0

abbrev pub save_at : ℕ → Text → ℕ → Files → Files
save_at tgid path mono f = record f {
  recent_file_saves =
      λ t p. if t == tgid && equal p path then some mono else f.recent_file_saves t p;
}

-- `shouldSuppressDuplicateFileSave` behind its guards.
unfoldable pub suppress_repeated : ℕ → ℕ → Text → ℕ → Files → Bool × Files
unfolding collect_old equal
suppress_repeated window tgid path mono f =
    let kept = collect_old window mono f in
    if repeats window mono (kept.recent_file_saves tgid path)
    then (true, kept)
    else (false, save_at tgid path mono kept)

-- `time.Duration(windowSec) * time.Second`, which `Load` keeps from overflowing.
abbrev pub window_ns : ℤ → ℕ
window_ns window_sec = pos_part window_sec * 1000000000

-- `shouldSuppressDuplicateFileSave`
unfoldable pub should_suppress_duplicate_file_save : ℤ → ℕ → Text → ℕ → Files → Bool × Files
unfolding suppress_repeated trim_space clean
should_suppress_duplicate_file_save window_sec tgid path mono f =
    if leb_ℤ window_sec (pos 0) || tgid == 0 || is_empty (trim_space path)
    then (false, f)
    else suppress_repeated (window_ns window_sec) tgid (clean (trim_space path)) mono f
