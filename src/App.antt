-- ===== src/App.antt =====
-- internal/cli/app.go: the flags of the command line tool, and the query that they make.
pub mod Shown
use prec.Base.{
  ℕ, zero, suc, ◌+◌, ◌-◌, ◌*◌, ◌/◌, ◌%◌, ◌^◌, ◌≤◌, ◌<◌, min, String, ◌≡◌, refl, sym, ap, ap₂, ◌∙◌,
  ◌≡⟨◌⟩◌, ◌∎, ◌≢◌, ◌↔◌, ◌⊎◌, inl, inr, Bool, true, false, not, ◌&&◌, ◌||◌, Option, none, some, List,
  [], ◌∷◌, ◌++◌, map, append-nil, append_assoc, arith, ltb, leb, ◌==◌, if◌then◌else◌, Bool-cases,
  Option-cases, ==_iff, ltb→lt, lt→ltb, leb→le, tests, length, get_elem?, get_or, set, take, drop,
  replicate, length-append, ℤ, pos, negsuc, pos_part, neg_part, ltb_ℤ, leb_ℤ, eqb_ℤ, ◌≤ℤ◌,
  eqb_ℤ_iff, Result, ok, err, ◌>>=◌, bind-eq-ok, map_result, Result-cases, ok_injective,
  bind_ok-eq-err,
}
use prec.Text.{Text, codes, is_empty, one_of, equal, trim_space}
use prec.Query.Filter.{spec_has_key}

-- The flags of `rootCLI` that say what is shown and how.
pub record RootCli : Type 0 where
  pub source : Text
  pub query : List Text
  pub limit : ℤ
  pub follow : Bool
  pub file_events : Bool
  pub tree : Bool
  pub output : Text

-- The errors of `validateModeFlags`, with the value that is quoted.
pub data ModeError : Type 0 where
  invalid_output invalid_source : Text → ModeError
  tree_with_follow tree_with_file_events negative_limit : ModeError

-- `normalizeSource`
unfoldable pub normalize_source : Text → Text
unfolding trim_space
normalize_source v = if is_empty (trim_space v) then codes "user" else v

-- `isSupportedSource`
unfoldable is_supported_source : Text → Bool
unfolding one_of
is_supported_source v = one_of v (codes "user" ∷ codes "system" ∷ codes "any" ∷ [])

-- `normalizeOutputFormat`
unfoldable normalize_output_format : Text → Text
unfolding trim_space
normalize_output_format v = if is_empty (trim_space v) then codes "text" else v

-- `isSupportedOutputFormat`
unfoldable is_supported_output_format : Text → Bool
unfolding one_of
is_supported_output_format v = one_of v (codes "text" ∷ codes "json" ∷ codes "csv" ∷ [])

-- `validateModeFlags`; `none` is no error.
unfoldable validate_mode_flags : RootCli → Option ModeError
unfolding is_supported_output_format normalize_output_format is_supported_source normalize_source
validate_mode_flags cli =
    if not (is_supported_output_format (normalize_output_format cli.output))
    then some (invalid_output cli.output)
    else if not (is_supported_source (normalize_source cli.source))
    then some (invalid_source cli.source)
    else if cli.follow && cli.tree
    then some tree_with_follow
    else if cli.tree && cli.file_events
    then some tree_with_file_events
    else if ltb_ℤ cli.limit (pos 0)
    then some negative_limit
    else none

-- `hasRecordTypeQuery`
unfoldable pub has_record_type_query : List Text → Bool
unfolding spec_has_key
has_record_type_query [] = false
has_record_type_query (spec ∷ specs) =
    if spec_has_key spec (codes "record_type") then true else has_record_type_query specs

abbrev pub process_spec : Text
process_spec = codes "record_type=proc_command||record_type=proc_fail||record_type=proc_loss"

abbrev pub process_and_save_spec : Text
process_and_save_spec =
    codes
      "record_type=proc_command||record_type=proc_fail||record_type=proc_loss||record_type=file_save"

-- The first `switch` of `effectiveQuerySpecs`.
unfoldable pub with_record_types : Bool → List Text → List Text
unfolding has_record_type_query
with_record_types file_events specs =
    if not file_events
    then process_spec ∷ specs
    else if not (has_record_type_query specs)
    then process_and_save_spec ∷ specs
    else specs

-- `effectiveQuerySpecs`
unfoldable pub effective_query_specs : RootCli → List Text
unfolding with_record_types normalize_source equal
effective_query_specs cli =
    let specs = with_record_types cli.file_events cli.query in
    if equal (normalize_source cli.source) (codes "any")
    then specs
    else if equal (normalize_source cli.source) (codes "system")
    then codes "source=system" ∷ specs
    else codes "source=user" ∷ specs
