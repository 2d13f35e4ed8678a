-- ===== src/Config.antt =====
-- internal/config/config.go: the settings of the daemon, their defaults, and what `Load` does with
-- them once the files have been merged. `strings.ToLower` is that of ASCII, and `lower_rune` is
-- what `unicode.ToLower` gives for the other code points.
pub mod Laws
use prec.Base.{
  ℕ, zero, suc, ◌+◌, ◌-◌, ◌*◌, ◌/◌, ◌%◌, ◌^◌, ◌≤◌, ◌<◌, min, String, ◌≡◌, refl, sym, ap, ap₂, ◌∙◌,
  ◌≡⟨◌⟩◌, ◌∎, ◌≢◌, ◌↔◌, ◌⊎◌, inl, inr, Bool, true, false, not, ◌&&◌, ◌||◌, Option, none, some, List,
  [], ◌∷◌, ◌++◌, map, append-nil, append_assoc, arith, ltb, leb, ◌==◌, if◌then◌else◌, Bool-cases,
  Option-cases, ==_iff, ltb→lt, lt→ltb, leb→le, tests, length, get_elem?, get_or, set, take, drop,
  replicate, length-append, ℤ, pos, negsuc, pos_part, neg_part, ltb_ℤ, leb_ℤ, eqb_ℤ, ◌≤ℤ◌,
  eqb_ℤ_iff, Result, ok, err, ◌>>=◌, bind-eq-ok, map_result, Result-cases, ok_injective,
  bind_ok-eq-err,
}
use prec.Text.{Text, codes, is_empty, one_of, equal, switch, trim_space, to_lower}

-- `Config`
pub record Config : Type 0 where
  pub log_path : Text
  pub compress : Text
  pub compress_level : ℤ
  pub collect_file_open : Bool
  pub collect_file_save : Bool
  pub collect_file_source : Text
  pub collect_file_scope : Text
  pub file_save_dedup_sec : ℤ
  pub filter_default : Text
  pub filter : List Text
  pub capture_filter : List Text
  pub capture_filter_refresh_sec : ℤ
  pub user_only : Bool
  pub lost_samples_action : Text
  pub max_arg_length : ℤ
  pub max_args : ℤ

abbrev pub default_log_path : Text
default_log_path = codes "/var/log/prec/prec.log"

-- `Default`
abbrev pub default_config : Config
default_config = record {
  log_path = default_log_path;
  compress = codes "zstd";
  compress_level = pos 3;
  collect_file_open = false;
  collect_file_save = false;
  collect_file_source = codes "user";
  collect_file_scope = codes "user_visible";
  file_save_dedup_sec = pos 1;
  filter_default = codes "allow";
  filter = [];
  capture_filter = [];
  capture_filter_refresh_sec = pos 3600;
  user_only = false;
  lost_samples_action = codes "log";
  max_arg_length = pos 1024;
  max_args = pos 128;
}

pub data ConfigError : Type 0 where
  invalid_file_save_dedup_sec : ℤ → ConfigError
  invalid_capture_filter_refresh_sec : ℤ → ConfigError
  invalid_collect_file_source : Text → ConfigError
  invalid_collect_file_scope : Text → ConfigError
  invalid_gzip_level : ℤ → ConfigError
  invalid_zstd_level : ℤ → ConfigError
  invalid_compress : Text → ConfigError
  invalid_lost_samples_action : Text → ConfigError
  invalid_filter_default : Text → ConfigError
  legacy_key : Text → ConfigError

-- The legacy keys that are refused, in the order in which they are looked for.
abbrev legacy_keys : List Text
legacy_keys =
    codes "include_uids"
    ∷ codes "exclude_uids"
    ∷ codes "include_gids"
    ∷ codes "exclude_gids"
    ∷ codes "include_users"
    ∷ codes "exclude_users"
    ∷ codes "include_groups"
    ∷ codes "exclude_groups"
    ∷ codes "include_exe_prefixes"
    ∷ codes "exclude_exe_prefixes"
    ∷ []

-- The loop of `validateLegacyFilterKeys`; `is_defined` is `meta.IsDefined`.
unfoldable first_defined : (Text → Bool) → List Text → Result ConfigError (Unit {0})
first_defined is_defined [] = ok tt
first_defined is_defined (key ∷ keys) =
    if is_defined key then err (legacy_key key) else first_defined is_defined keys

-- `validateLegacyFilterKeys`
unfoldable validate_legacy_filter_keys : (Text → Bool) → Result ConfigError (Unit {0})
unfolding first_defined
validate_legacy_filter_keys is_defined = first_defined is_defined legacy_keys

-- `int64(1<<63-1) / int64(time.Second)`
abbrev pub max_seconds : ℕ
max_seconds = (2 ^ 63 - 1) / 1000000000

abbrev pub check : Bool → ConfigError → Result ConfigError (Unit {0})
check good e = if good then ok tt else err e

-- `validateFilterDefault`
unfoldable pub validate_filter_default : Text → Result ConfigError (Unit {0})
unfolding one_of
validate_filter_default v =
    check (one_of v (codes "allow" ∷ codes "deny" ∷ [])) (invalid_filter_default v)

-- `validateFileSaveDedupSec`
unfoldable pub validate_file_save_dedup_sec : ℤ → Result ConfigError (Unit {0})
validate_file_save_dedup_sec v =
    check (not (ltb_ℤ v (pos 0) || ltb_ℤ (pos max_seconds) v)) (invalid_file_save_dedup_sec v)

-- The test of `Load` on `CaptureFilterRefreshSec`.
unfoldable pub validate_capture_filter_refresh_sec : ℤ → Result ConfigError (Unit {0})
validate_capture_filter_refresh_sec v =
    check (not (leb_ℤ v (pos 0) || ltb_ℤ (pos max_seconds) v))
      (invalid_capture_filter_refresh_sec v)

-- `validateCollectFileSource`
unfoldable pub validate_collect_file_source : Text → Result ConfigError (Unit {0})
unfolding one_of
validate_collect_file_source v =
    check (one_of v (codes "user" ∷ codes "system" ∷ codes "any" ∷ []))
      (invalid_collect_file_source v)

-- `validateCollectFileScope`
unfoldable pub validate_collect_file_scope : Text → Result ConfigError (Unit {0})
unfolding one_of
validate_collect_file_scope v =
    check (one_of v (codes "all" ∷ codes "home" ∷ codes "user_visible" ∷ []))
      (invalid_collect_file_scope v)

-- `defaultCompressLevel`
unfoldable pub default_compress_level : Text → ℤ
unfolding switch
default_compress_level mode =
    switch mode ((codes "gz", negsuc 0) ∷ (codes "zstd", pos 3) ∷ []) (pos 0)

-- `validateCompression`
unfoldable pub validate_compression : Text → ℤ → Result ConfigError (Unit {0})
unfolding switch
validate_compression mode level =
    switch mode
      ((codes "no", ok tt)
        ∷ (
          codes "gz",
          check (not (ltb_ℤ level (negsuc 2) || ltb_ℤ (pos 9) level)) (invalid_gzip_level level),
        )
        ∷ (
          codes "zstd",
          check (not (ltb_ℤ level (pos 1) || ltb_ℤ (pos 22) level)) (invalid_zstd_level level),
        )
        ∷ [])
      (err (invalid_compress mode))

-- `validateLostSamplesAction`
unfoldable pub validate_lost_samples_action : Text → Result ConfigError (Unit {0})
unfolding one_of
validate_lost_samples_action action =
    check (one_of action (codes "log" ∷ codes "ignore" ∷ codes "stop" ∷ []))
      (invalid_lost_samples_action action)

-- `if x == "" { x = default }`
abbrev pub or_default : Text → Text → Text
or_default s d = if is_empty s then d else s

abbrev pub positive_or : ℤ → ℤ → ℤ
positive_or v d = if leb_ℤ v (pos 0) then d else v

module _ (lower_rune : ℕ → ℕ) where
  -- `strings.ToLower(strings.TrimSpace(s))`
  abbrev tidy : Text → Text
  tidy s = to_lower lower_rune (trim_space s)

  -- The assignments of `Load` behind `loadConfig`.
  unfoldable pub normalize : Config → Bool → Config
  normalize cfg compress_level_defined =
      let compress = or_default (tidy cfg.compress) (codes "zstd") in
      record cfg {
        log_path = or_default cfg.log_path default_log_path;
        compress = compress;
        compress_level =
            if not compress_level_defined
            then default_compress_level compress
            else cfg.compress_level;
        collect_file_source = or_default (tidy cfg.collect_file_source) (codes "user");
        collect_file_scope = or_default (tidy cfg.collect_file_scope) (codes "user_visible");
        filter_default = or_default (tidy cfg.filter_default) (codes "allow");
        lost_samples_action = or_default (tidy cfg.lost_samples_action) (codes "log");
        max_arg_length = positive_or cfg.max_arg_length (pos 1024);
        max_args = positive_or cfg.max_args (pos 128);
      }

-- The checks of `Load`, in their order.
unfoldable pub validate : Config → Result ConfigError Config
validate cfg = validate_file_save_dedup_sec cfg.file_save_dedup_sec >>= λ _.
    validate_capture_filter_refresh_sec cfg.capture_filter_refresh_sec >>= λ _.
    validate_collect_file_source cfg.collect_file_source >>= λ _.
    validate_collect_file_scope cfg.collect_file_scope >>= λ _.
    validate_compression cfg.compress cfg.compress_level >>= λ _.
    validate_lost_samples_action cfg.lost_samples_action >>= λ _.
    validate_filter_default cfg.filter_default >>= λ _. ok cfg

-- `Load` behind `loadConfig`.
unfoldable pub finish_load : (ℕ → ℕ) → Config → Bool → Result ConfigError Config
unfolding normalize validate
finish_load lower_rune cfg compress_level_defined =
    validate (normalize lower_rune cfg compress_level_defined)
