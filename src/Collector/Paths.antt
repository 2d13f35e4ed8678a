-- ===== src/Collector/Paths.antt =====
-- internal/collector/collector_linux.go: which files are recorded, by their paths. `lower_rune` is
-- `unicode.ToLower` beyond ASCII.
use prec.Base.{
  ℕ, ◌/◌, ◌%◌, ◌^◌, Bool, true, false, not, ◌&&◌, ◌||◌, List, [], ◌∷◌, ◌++◌, ◌==◌, if◌then◌else◌, ℤ,
  pos, negsuc,
}
use prec.Text.{Text, codes, is_empty, equal, one_of, has_prefix, split, trim_space, to_lower}
use prec.Text.Path.{is_abs, clean, join_path, has_suffix, trim_suffix, trim_prefix}
use prec.Event.{CommandEvent, source_user, source_system}
use prec.Event.Source.Path.{base}
use prec.Config.{Config}

-- `normalizeFilePath`
unfoldable pub normalize_file_path : Text → Text → Text → Bool → Text
unfolding trim_space join_path clean has_prefix
normalize_file_path raw_path cwd dirfd_path use_dirfd =
    let path = trim_space raw_path in
    let dirfd = trim_space dirfd_path in
    let base_dir = if not use_dirfd && is_empty dirfd then cwd else dirfd in
    if is_empty path
    then []
    else if has_prefix path (codes "/")
    then path
    else if is_empty base_dir
    then path
    else clean (join_path base_dir path)

-- Bit `k` of an int, in two's complement.
unfoldable pub bit : ℕ → ℤ → Bool
bit k (pos n) = n / 2 ^ k % 2 == 1
bit k (negsuc n) = n / 2 ^ k % 2 == 0

-- `shouldEmitFileOpenEvent`: `O_WRONLY` or `O_RDWR`, or one of `O_CREAT`, `O_EXCL`, `O_TRUNC` and
-- `O_APPEND`, at their places on Linux.
unfoldable pub should_emit_file_open_event : ℤ → Bool → Bool
unfolding bit
should_emit_file_open_event open_flags capture_read_opens =
    if capture_read_opens
    then true
    else if (bit 0 open_flags && not (bit 1 open_flags))
        || (not (bit 0 open_flags) && bit 1 open_flags)
    then true
    else bit 6 open_flags || bit 7 open_flags || bit 9 open_flags || bit 10 open_flags

-- `shouldTrackFilePath`
unfoldable pub should_track_file_path : Text → Bool
unfolding trim_space has_prefix
should_track_file_path path =
    let clean_path = trim_space path in
    if is_empty clean_path
    then false
    else not (
        has_prefix clean_path (codes "anon_inode:")
        || has_prefix clean_path (codes "/dev/")
        || has_prefix clean_path (codes "/proc/")
        || has_prefix clean_path (codes "/sys/"))

abbrev deleted_mark : Text
deleted_mark = codes " (deleted)"

-- `normalizeScopedFilePath`
unfoldable normalize_scoped_file_path : Text → Text
unfolding trim_space has_suffix trim_suffix clean
normalize_scoped_file_path path =
    let trimmed = trim_space path in
    let clean_path =
      if has_suffix trimmed deleted_mark
      then trim_space (trim_suffix trimmed deleted_mark)
      else trimmed in
    if is_empty clean_path || not (is_abs clean_path) then [] else clean clean_path

-- The loop of `isUserVisibleFilePath`: a hidden part is allowed at the end alone.
unfoldable parts_visible : List Text → Bool
unfolding has_prefix
parts_visible [] = true
parts_visible (part ∷ []) = true
parts_visible (part ∷ next ∷ parts) =
    let rest = parts_visible (next ∷ parts) in
    if is_empty part || equal part (codes ".")
    then rest
    else if has_prefix part (codes ".")
    then false
    else rest

unfoldable last_part : List Text → Text
last_part [] = []
last_part (part ∷ []) = part
last_part (part ∷ next ∷ parts) = last_part (next ∷ parts)

unfoldable any_suffix : Text → List Text → Bool
unfolding has_suffix
any_suffix s [] = false
any_suffix s (suffix ∷ suffixes) = has_suffix s suffix || any_suffix s suffixes

abbrev scratch_suffixes : List Text
scratch_suffixes =
    codes ".swp"
    ∷ codes ".swo"
    ∷ codes ".swx"
    ∷ codes ".tmp"
    ∷ codes ".log"
    ∷ codes "-wal"
    ∷ codes "-journal"
    ∷ []

module _ (lower_rune : ℕ → ℕ) where
  -- `matchesConfiguredFileSource`
  unfoldable pub matches_configured_file_source : Text → Text → Bool
  unfolding one_of equal trim_space
  matches_configured_file_source event_source configured_source =
      let chosen = to_lower lower_rune (trim_space configured_source) in
      if one_of chosen ([] ∷ codes "user" ∷ [])
      then equal event_source source_user
      else if equal chosen (codes "system")
      then equal event_source source_system
      else if equal chosen (codes "any")
      then equal event_source source_user || equal event_source source_system
      else false

  -- `shouldDropPrecdSelfLogWrite`
  unfoldable pub should_drop_precd_self_log_write : CommandEvent → Text → Text → Bool
  unfolding trim_space base equal clean
  should_drop_precd_self_log_write ev file_path log_path =
      let comm_name = to_lower lower_rune (trim_space ev.comm) in
      let name =
        if is_empty comm_name then to_lower lower_rune (base (trim_space ev.exe)) else comm_name in
      if is_empty (trim_space log_path) || is_empty (trim_space file_path)
      then false
      else if not (equal name (codes "precd"))
      then false
      else equal (clean file_path) (clean log_path)

module _ (lower_rune : ℕ → ℕ) (user_home : ℕ → Text) where
  -- `isUserVisibleFilePath`
  unfoldable pub is_user_visible_file_path : CommandEvent → Bool
  unfolding normalize_scoped_file_path trim_space has_suffix split trim_prefix parts_visible
      last_part has_prefix any_suffix
  is_user_visible_file_path ev =
      let path = normalize_scoped_file_path ev.file_path in
      let parts = split (trim_prefix path (codes "/")) (codes "/") in
      let base_name = last_part parts in
      if is_empty path
      then false
      else if has_suffix (trim_space ev.file_path) deleted_mark
      then false
      else if not (parts_visible parts)
      then false
      else if has_prefix base_name (codes "etilqs_")
      then false
      else not (any_suffix (to_lower lower_rune base_name) scratch_suffixes)

  -- `isUserHomeFilePath`; `user_home` is `lookupUserHome`.
  unfoldable pub is_user_home_file_path : CommandEvent → Bool
  unfolding normalize_scoped_file_path has_prefix equal
  is_user_home_file_path ev =
      let path = normalize_scoped_file_path ev.file_path in
      let home = user_home ev.uid in
      if is_empty path || is_empty home
      then false
      else equal path home || has_prefix path (home ++ codes "/")

  -- `matchesConfiguredFileScope`
  unfoldable pub matches_configured_file_scope : CommandEvent → Text → Bool
  unfolding one_of equal trim_space
  matches_configured_file_scope ev scope =
      let chosen = to_lower lower_rune (trim_space scope) in
      if one_of chosen ([] ∷ codes "user_visible" ∷ [])
      then is_user_visible_file_path ev
      else if equal chosen (codes "home")
      then is_user_home_file_path ev
      else equal chosen (codes "all")

  -- `shouldRecordFileEvent`
  unfoldable pub should_record_file_event : Config → CommandEvent → Bool
  unfolding should_track_file_path
  should_record_file_event cfg ev =
      if not (should_track_file_path ev.file_path)
      then false
      else if not (matches_configured_file_scope ev cfg.collect_file_scope)
      then false
      else if not (matches_configured_file_source lower_rune ev.source cfg.collect_file_source)
      then false
      else not (should_drop_precd_self_log_write lower_rune ev ev.file_path cfg.log_path)
