-- ===== src/Join/InPlace.antt =====
-- internal/cli/event_merge.go: `mergeEventsForList` builds its rows in the array that it reads,
-- `out := raw[:0]`. Here that array is explicit; `Join.merge_events_for_list` builds a fresh list.
pub mod Branches
pub mod Rows
use prec.Base.{
  ℕ, zero, suc, ◌+◌, ◌-◌, ◌*◌, ◌/◌, ◌%◌, ◌^◌, ◌≤◌, ◌<◌, min, String, ◌≡◌, refl, sym, ap, ap₂, ◌∙◌,
  ◌≡⟨◌⟩◌, ◌∎, ◌≢◌, ◌↔◌, ◌⊎◌, inl, inr, Bool, true, false, not, ◌&&◌, ◌||◌, Option, none, some, List,
  [], ◌∷◌, ◌++◌, map, append-nil, append_assoc, arith, ltb, leb, ◌==◌, if◌then◌else◌, Bool-cases,
  Option-cases, ==_iff, ltb→lt, lt→ltb, leb→le, tests, length, get_elem?, get_or, set, take, drop,
  replicate, length-append, ℤ, pos, negsuc, pos_part, neg_part, ltb_ℤ, leb_ℤ, eqb_ℤ, ◌≤ℤ◌,
  eqb_ℤ_iff, Result, ok, err, ◌>>=◌, bind-eq-ok, map_result,
}
use prec.Text.{Text, equal, is_empty}
use prec.Event.{CommandEvent, empty_event}
use prec.Event.RecordType
use prec.Join.{
  Table, lookup, store, JoinState, is_merge_candidate, merge_event_for_streaming, Merge, append_row,
  place_row, keep_row, merge_record, merge_records, merge_events_for_list,
}

-- The shared array, of which the first `out_len` cells are `out`.
pub record Shared : Type 0 where
  pub state : JoinState
  pub cells : List CommandEvent
  pub out_len : ℕ
  pub index_by_event_id : Table ℕ

-- `out = append(out, row)`: the array has room, since no more rows are written than are read.
abbrev pub append_cell : Shared → JoinState → CommandEvent → Shared
append_cell m state row = record m {
  state = state;
  cells = set m.cells m.out_len row;
  out_len = m.out_len + 1;
}

unfoldable pub place_cell : Shared → JoinState → CommandEvent → Shared
unfolding lookup store
place_cell m state row =
    if is_empty row.event_id
    then append_cell m state row
    else elim (lookup row.event_id m.index_by_event_id) [
      | none ↦ record {
        state = state;
        cells = set m.cells m.out_len row;
        out_len = m.out_len + 1;
        index_by_event_id = store row.event_id m.out_len m.index_by_event_id;
      }
      | some idx ↦ record m { state = state; cells = set m.cells idx row }
    ]

unfoldable pub keep_cell : Shared → Option CommandEvent × JoinState → Shared
unfolding place_cell
keep_cell m (none, state) = record m { state = state }
keep_cell m (some merged, state) = place_cell m state merged

-- The body of the loop, on the record that has been read.
unfoldable pub merge_cell : Shared → CommandEvent → Shared
unfolding keep_cell merge_event_for_streaming
merge_cell m ev =
    if equal ev.record_type RecordType.command
    then m
    else if is_merge_candidate ev.record_type
    then keep_cell m (merge_event_for_streaming m.state ev true)
    else append_cell m m.state ev

-- The loop over `raw` from index `i` on, for `left` rounds: each round reads its record from the
-- array as it is then.
unfoldable pub merge_cells : ℕ → ℕ → Shared → Shared
unfolding merge_cell
merge_cells zero i m = m
merge_cells (suc left) i m = elim (get_elem? m.cells i) [
  | none ↦ m
  | some ev ↦ merge_cells left (i + 1) (merge_cell m ev)
]

-- `clear(raw[len(out):rawLen])`
unfoldable pub clear_from : ℕ → List CommandEvent → List CommandEvent
clear_from j [] = []
clear_from zero (c ∷ cells) = empty_event ∷ clear_from zero cells
clear_from (suc j) (c ∷ cells) = c ∷ clear_from j cells

-- `mergeEventsForList`: the array at the end, the length of `out`, and the join state.
unfoldable pub merge_in_place : List CommandEvent → JoinState → List CommandEvent × ℕ × JoinState
unfolding merge_cells clear_from
merge_in_place raw state =
    let start : Shared = record {
      state = state;
      cells = raw;
      out_len = 0;
      index_by_event_id = [];
    } in
    let m = merge_cells (length raw) 0 start in (clear_from m.out_len m.cells, m.out_len, m.state)
