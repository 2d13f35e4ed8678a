-- ===== src/Join.antt =====
-- internal/cli/event_merge.go: the join of start and end records into one row for each command.
-- The map of pending commands is an association list in which `store` overwrites and `erase`
-- removes every entry of a key. A row that is not kept is `none`.
pub mod Pending
pub mod InPlace
pub mod Ended
use prec.Base.{
  ℕ, zero, suc, ◌+◌, ◌-◌, ◌*◌, ◌/◌, ◌%◌, ◌^◌, ◌≤◌, ◌<◌, min, String, ◌≡◌, refl, sym, ap, ap₂, ◌∙◌,
  ◌≡⟨◌⟩◌, ◌∎, ◌≢◌, ◌↔◌, ◌⊎◌, inl, inr, Bool, true, false, not, ◌&&◌, ◌||◌, Option, none, some, List,
  [], ◌∷◌, ◌++◌, map, append-nil, append_assoc, arith, ltb, leb, ◌==◌, if◌then◌else◌, Bool-cases,
  Option-cases, ==_iff, ltb→lt, lt→ltb, leb→le, tests, length, get_elem?, get_or, set, take, drop,
  replicate, length-append, ℤ, pos, negsuc, pos_part, neg_part, ltb_ℤ, leb_ℤ, eqb_ℤ, ◌≤ℤ◌,
  eqb_ℤ_iff, Result, ok, err, ◌>>=◌, bind-eq-ok, map_result,
}
use prec.Text.{Text, equal, is_empty}
use prec.Event.{CommandEvent}
use prec.Event.RecordType

-- `map[string]T`
abbrev pub Table {ℓ} : Type ℓ → Type ℓ
Table V = List (Text × V)

module _ {ℓ} {V : Type ℓ} where
  -- `v, ok := m[key]`
  unfoldable pub lookup : Text → Table V → Option V
  lookup key [] = none
  lookup key ((k, v) ∷ m) = if equal key k then some v else lookup key m

  -- `m[key] = v`
  unfoldable pub store : Text → V → Table V → Table V
  store key v [] = (key, v) ∷ []
  store key v ((k, w) ∷ m) = if equal key k then (key, v) ∷ m else (k, w) ∷ store key v m

  -- `delete(m, key)`
  unfoldable pub erase : Text → Table V → Table V
  erase key [] = []
  erase key ((k, v) ∷ m) = if equal key k then erase key m else (k, v) ∷ erase key m

-- `commandJoinState`
abbrev pub JoinState : Type 0
JoinState = Table CommandEvent

-- `isMergeCandidateRecordType`
unfoldable pub is_merge_candidate : Text → Bool
unfolding equal
is_merge_candidate record_type =
    equal record_type RecordType.start || equal record_type RecordType.end

-- `mergedCommandFromStart`
unfoldable pub merged_command_from_start : CommandEvent → CommandEvent
merged_command_from_start start = record start {
  record_type = RecordType.command;
  end_timestamp = [];
  duration_ns = none;
  exit_status = none;
}

abbrev pub or_else : Option ℤ → Option ℤ → Option ℤ
or_else none old = old
or_else (some v) old = some v

-- `applyCommandEnd`
unfoldable pub apply_command_end : CommandEvent → CommandEvent → CommandEvent
apply_command_end start end = record start {
  record_type = RecordType.command;
  end_timestamp = end.timestamp;
  duration_ns = or_else end.duration_ns start.duration_ns;
  exit_status = or_else end.exit_status start.exit_status;
}

-- `mergedEventWithoutCommandEnd`
unfoldable pub merged_event_without_command_end : CommandEvent → Option CommandEvent
unfolding equal merged_command_from_start
merged_event_without_command_end ev =
    if equal ev.record_type RecordType.start
    then some (merged_command_from_start ev)
    else if equal ev.record_type RecordType.end || equal ev.record_type RecordType.command
    then none
    else some ev

-- `mergeEventForStreaming` with `includeCommandEnd` and a state.
unfoldable pub merge_with_end : JoinState → CommandEvent → Option CommandEvent × JoinState
merge_with_end state ev =
    if not (is_merge_candidate ev.record_type)
    then (if equal ev.record_type RecordType.command then none else some ev, state)
    else if is_empty ev.event_id
    then (none, state)
    else if equal ev.record_type RecordType.start
    then (let merged = merged_command_from_start ev in
        (some merged, store ev.event_id merged state))
    else if equal ev.record_type RecordType.end
    then elim (lookup ev.event_id state) [
      | none ↦ (none, state)
      | some start ↦ (some (apply_command_end start ev), erase ev.event_id state)
    ]
    else (none, state)

-- `mergeEventForStreaming`; a nil state is the empty one, which the caller does not see again.
unfoldable pub merge_event_for_streaming :
    JoinState → CommandEvent → Bool → Option CommandEvent × JoinState
unfolding merge_with_end merged_event_without_command_end
merge_event_for_streaming state ev include_command_end =
    if not include_command_end
    then (merged_event_without_command_end ev, state)
    else merge_with_end state ev

-- What `mergeEventsForList` keeps from record to record.
pub record Merge : Type 0 where
  pub state : JoinState
  pub out : List CommandEvent
  pub index_by_event_id : Table ℕ

abbrev pub append_row : Merge → JoinState → CommandEvent → Merge
append_row m state row = record m { state = state; out = m.out ++ (row ∷ []) }

-- A merged command with an event id goes to its place, if it has one, and else to the end.
unfoldable pub place_row : Merge → JoinState → CommandEvent → Merge
unfolding lookup store
place_row m state row =
    if is_empty row.event_id
    then append_row m state row
    else elim (lookup row.event_id m.index_by_event_id) [
      | none ↦ record {
        state = state;
        out = m.out ++ (row ∷ []);
        index_by_event_id = store row.event_id (length m.out) m.index_by_event_id;
      }
      | some idx ↦ record m { state = state; out = set m.out idx row }
    ]

-- `if !keep { continue }`
unfoldable pub keep_row : Merge → Option CommandEvent × JoinState → Merge
unfolding place_row
keep_row m (none, state) = record m { state = state }
keep_row m (some merged, state) = place_row m state merged

-- The body of the loop of `mergeEventsForList`.
unfoldable pub merge_record : Merge → CommandEvent → Merge
unfolding keep_row merge_event_for_streaming
merge_record m ev =
    if equal ev.record_type RecordType.command
    then m
    else if is_merge_candidate ev.record_type
    then keep_row m (merge_event_for_streaming m.state ev true)
    else append_row m m.state ev

unfoldable pub merge_records : Merge → List CommandEvent → Merge
unfolding merge_record
merge_records m [] = m
merge_records m (ev ∷ raw) = merge_records (merge_record m ev) raw

-- `mergeEventsForList`: the rows, and the join state that is left.
unfoldable pub merge_events_for_list : List CommandEvent → JoinState → List CommandEvent × JoinState
unfolding merge_records
merge_events_for_list raw state =
    let m = merge_records (record { state = state; out = []; index_by_event_id = [] }) raw in
    (m.out, m.state)
