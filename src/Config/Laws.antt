-- ===== src/Config/Laws.antt =====
-- internal/config/config.go: the bounds of the settings, and the checks of `Load`.
use prec.Base.{
  ℕ, ◌≤◌, ◌≡◌, refl, sym, ap, ◌∙◌, ◌↔◌, ◌⊎◌, inl, inr, Bool, true, false, [], ◌∷◌, arith,
  Bool-cases, ℤ, pos, negsuc, ◌≤ℤ◌, Result, ok, err, ◌>>=◌, ok_injective,
}
use mathlib.Core.Path.{subst}
use prec.Text.{Text, codes, is_empty, one_of, equal, equal_iff}
use prec.Config.{
  Config, default_log_path, ConfigError, max_seconds, check, validate_filter_default,
  validate_file_save_dedup_sec, validate_capture_filter_refresh_sec, validate_collect_file_source,
  validate_collect_file_scope, validate_compression, validate_lost_samples_action, or_default,
  positive_or, normalize, validate, finish_load,
}

-- The level fits the compression mode.
abbrev LevelFits : Text → ℤ → Type 0
LevelFits mode level =
    (mode ≡ codes "no")
    ⊎ (((mode ≡ codes "gz") × (negsuc 2 ≤ℤ level) × (level ≤ℤ pos 9))
        ⊎ ((mode ≡ codes "zstd") × (pos 1 ≤ℤ level) × (level ≤ℤ pos 22)))

pub record IsValid (c : Config) : Type 0 where
  pub log_path : is_empty c.log_path ≡ false
  pub dedup : (pos 0 ≤ℤ c.file_save_dedup_sec) × (c.file_save_dedup_sec ≤ℤ pos max_seconds)
  pub refresh :
      (pos 1 ≤ℤ c.capture_filter_refresh_sec) × (c.capture_filter_refresh_sec ≤ℤ pos max_seconds)
  pub source :
      one_of c.collect_file_source (codes "user" ∷ codes "system" ∷ codes "any" ∷ []) ≡ true
  pub scope :
      one_of c.collect_file_scope (codes "all" ∷ codes "home" ∷ codes "user_visible" ∷ []) ≡ true
  pub level : LevelFits c.compress c.compress_level
  pub action :
      one_of c.lost_samples_action (codes "log" ∷ codes "ignore" ∷ codes "stop" ∷ []) ≡ true
  pub filter_default : one_of c.filter_default (codes "allow" ∷ codes "deny" ∷ []) ≡ true
  pub max_arg_length : pos 1 ≤ℤ c.max_arg_length
  pub max_args : pos 1 ≤ℤ c.max_args

validate_compression-LevelFits :
    (mode : Text) (level : ℤ) → validate_compression mode level ≡ ok tt → LevelFits mode level
unfolding validate_compression
validate_compression-LevelFits mode level h = elim (Bool-cases (equal mode (codes "no"))) [
  | inl e ↦ inl ((equal_iff mode (codes "no")).0 e)
  | inr not_no ↦ elim (Bool-cases (equal mode (codes "gz"))) [
    | inl e ↦ inr (inl ((equal_iff mode (codes "gz")).0 e, ground arith, ground arith))
    | inr not_gz ↦
        inr (inr ((equal_iff mode (codes "zstd")).0 (ground arith), ground arith, ground arith))
  ]
]

LevelFits-validate_compression :
    (mode : Text) (level : ℤ) → LevelFits mode level → validate_compression mode level ≡ ok tt
unfolding validate_compression equal
LevelFits-validate_compression mode level (inl e) = rw e
LevelFits-validate_compression mode level (inr (inl (e, lo, hi))) = rw e (ground arith)
LevelFits-validate_compression mode level (inr (inr (e, lo, hi))) = rw e (ground arith)

-- The seven checks that `validate` makes have passed.
record Passes (c : Config) : Type 0 where
  dedup : validate_file_save_dedup_sec c.file_save_dedup_sec ≡ ok tt
  refresh : validate_capture_filter_refresh_sec c.capture_filter_refresh_sec ≡ ok tt
  source : validate_collect_file_source c.collect_file_source ≡ ok tt
  scope : validate_collect_file_scope c.collect_file_scope ≡ ok tt
  level : validate_compression c.compress c.compress_level ≡ ok tt
  action : validate_lost_samples_action c.lost_samples_action ≡ ok tt
  filter_default : validate_filter_default c.filter_default ≡ ok tt

-- A step of a chain of checks that has succeeded.
passed :
    (m : Result ConfigError (Unit {0})) (k : Result ConfigError Config) {c : Config}
    → (m >>= λ _. k) ≡ ok c
    → (m ≡ ok tt) × (k ≡ ok c)
passed (ok _) k h = (refl, h)
passed (err e) k h = cc

validate-Passes : (cfg c : Config) → validate cfg ≡ ok c → (cfg ≡ c) × Passes cfg
unfolding validate
validate-Passes cfg c h =
    let (dedup, h1) = passed (validate_file_save_dedup_sec cfg.file_save_dedup_sec) _ h in
    let (refresh, h2) =
      passed (validate_capture_filter_refresh_sec cfg.capture_filter_refresh_sec) _ h1 in
    let (source, h3) = passed (validate_collect_file_source cfg.collect_file_source) _ h2 in
    let (scope, h4) = passed (validate_collect_file_scope cfg.collect_file_scope) _ h3 in
    let (level, h5) = passed (validate_compression cfg.compress cfg.compress_level) _ h4 in
    let (action, h6) = passed (validate_lost_samples_action cfg.lost_samples_action) _ h5 in
    let (filter_default, h7) = passed (validate_filter_default cfg.filter_default) _ h6 in
    (
      ok_injective h7,
      record {
        dedup = dedup;
        refresh = refresh;
        source = source;
        scope = scope;
        level = level;
        action = action;
        filter_default = filter_default;
      },
    )

Passes-validate : (cfg : Config) → Passes cfg → validate cfg ≡ ok cfg
unfolding validate
Passes-validate cfg p =
    rw (p.dedup, p.refresh, p.source, p.scope, p.level, p.action, p.filter_default)

check-passed : (b : Bool) (e : ConfigError) → check b e ≡ ok tt → b ≡ true
check-passed true e h = refl
check-passed false e h = cc

or_default_nonempty : (s d : Text) → is_empty d ≡ false → is_empty (or_default s d) ≡ false
or_default_nonempty [] d h = h
or_default_nonempty (c ∷ s) d h = refl

positive_or-pos : (v : ℤ) (n : ℕ) → 1 ≤ n → pos 1 ≤ℤ positive_or v (pos n)
positive_or-pos v n h = ground arith

module _ (lower_rune : ℕ → ℕ) (cfg : Config) (defined : Bool) where
  Passes-IsValid :
      Passes (normalize lower_rune cfg defined) → IsValid (normalize lower_rune cfg defined)
  unfolding normalize validate_file_save_dedup_sec validate_capture_filter_refresh_sec
      validate_collect_file_source validate_collect_file_scope validate_lost_samples_action
      validate_filter_default
  Passes-IsValid p = record {
    log_path = or_default_nonempty cfg.log_path default_log_path refl;
    dedup = (ground (arith, p.dedup), ground (arith, p.dedup));
    refresh = (ground (arith, p.refresh), ground (arith, p.refresh));
    source = check-passed _ _ p.source;
    scope = check-passed _ _ p.scope;
    level = validate_compression-LevelFits _ _ p.level;
    action = check-passed _ _ p.action;
    filter_default = check-passed _ _ p.filter_default;
    max_arg_length = positive_or-pos cfg.max_arg_length 1024 (omega arith);
    max_args = positive_or-pos cfg.max_args 128 (omega arith);
  }

  IsValid-Passes :
      IsValid (normalize lower_rune cfg defined) → Passes (normalize lower_rune cfg defined)
  unfolding validate_file_save_dedup_sec validate_capture_filter_refresh_sec
      validate_collect_file_source validate_collect_file_scope validate_lost_samples_action
      validate_filter_default
  IsValid-Passes v = record {
    dedup = ground (arith, v.dedup);
    refresh = ground (arith, v.refresh);
    source = rw v.source;
    scope = rw v.scope;
    level = LevelFits-validate_compression _ _ v.level;
    action = rw v.action;
    filter_default = rw v.filter_default;
  }

  -- `Load` accepts the merged settings exactly when their normal form is valid, and returns that
  -- normal form: known words in every choice, a compression level that fits the mode, and every
  -- number of seconds, arguments and bytes in its range.
  pub finish_load-IsValid :
      (c : Config)
      → (finish_load lower_rune cfg defined ≡ ok c)
        ↔ ((normalize lower_rune cfg defined ≡ c) × IsValid c)
  finish_load-IsValid c = (accepts, returns)
    where
      accepts :
          finish_load lower_rune cfg defined ≡ ok c
          → (normalize lower_rune cfg defined ≡ c) × IsValid c
      accepts h =
          let (same, p) =
            validate-Passes (normalize lower_rune cfg defined) c (unfold finish_load in h) in
          (same, subst IsValid same (Passes-IsValid p))

      returns :
          (normalize lower_rune cfg defined ≡ c) × IsValid c
          → finish_load lower_rune cfg defined ≡ ok c
      returns (e, v) =
          let done =
            Passes-validate (normalize lower_rune cfg defined)
              (IsValid-Passes (subst IsValid (sym e) v)) in
          unfold finish_load in done ∙ ap ok e
