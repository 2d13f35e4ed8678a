-- ===== src/Join/InPlace/Branches.antt =====
-- internal/cli/event_merge.go: the branches of the loop of `mergeEventsForList`, as equations, over
-- the shared array and over a fresh list.
use prec.Base.{ℕ, ◌+◌, ◌≡◌, true, false, none, some, [], ◌∷◌, ◌++◌, length, set}
use prec.Text.{equal, is_empty}
use prec.Event.{CommandEvent}
use prec.Event.RecordType
use prec.Join.{
  lookup, store, JoinState, is_merge_candidate, merge_event_for_streaming, Merge, append_row,
  place_row, keep_row, merge_record,
}
use prec.Join.InPlace.{Shared, append_cell, place_cell, keep_cell, merge_cell}

-- The branches of the two loop bodies, as equations.
module _ (c : Shared) (state : JoinState) (row : CommandEvent) where
  pub place_cell-anonymous :
      is_empty row.event_id ≡ true → place_cell c state row ≡ append_cell c state row
  place_cell-anonymous e = unfold place_cell in rw e

  pub place_cell-new :
      is_empty row.event_id ≡ false
      → lookup row.event_id c.index_by_event_id ≡ none
      → place_cell c state row ≡ record {
        state = state;
        cells = set c.cells c.out_len row;
        out_len = c.out_len + 1;
        index_by_event_id = store row.event_id c.out_len c.index_by_event_id;
      }
  place_cell-new named e = unfold place_cell in rw (named, e, place_cell)

  pub place_cell-old :
      (idx : ℕ)
      → is_empty row.event_id ≡ false
      → lookup row.event_id c.index_by_event_id ≡ some idx
      → place_cell c state row ≡ record c { state = state; cells = set c.cells idx row }
  place_cell-old idx named e = unfold place_cell in rw (named, e, place_cell)

module _ (m : Merge) (state : JoinState) (row : CommandEvent) where
  pub place_row-anonymous :
      is_empty row.event_id ≡ true → place_row m state row ≡ append_row m state row
  place_row-anonymous e = unfold place_row in rw e

  pub place_row-new :
      is_empty row.event_id ≡ false
      → lookup row.event_id m.index_by_event_id ≡ none
      → place_row m state row ≡ record {
        state = state;
        out = m.out ++ (row ∷ []);
        index_by_event_id = store row.event_id (length m.out) m.index_by_event_id;
      }
  place_row-new named e = unfold place_row in rw (named, e, place_row)

  pub place_row-old :
      (idx : ℕ)
      → is_empty row.event_id ≡ false
      → lookup row.event_id m.index_by_event_id ≡ some idx
      → place_row m state row ≡ record m { state = state; out = set m.out idx row }
  place_row-old idx named e = unfold place_row in rw (named, e, place_row)

pub merge_cell-command :
    (c : Shared) (ev : CommandEvent)
    → equal ev.record_type RecordType.command ≡ true
    → merge_cell c ev ≡ c
merge_cell-command c ev e = unfold merge_cell in rw e

pub merge_record-command :
    (m : Merge) (ev : CommandEvent)
    → equal ev.record_type RecordType.command ≡ true
    → merge_record m ev ≡ m
merge_record-command m ev e = unfold merge_record in rw e

pub merge_cell-candidate :
    (c : Shared) (ev : CommandEvent)
    → equal ev.record_type RecordType.command ≡ false
    → is_merge_candidate ev.record_type ≡ true
    → merge_cell c ev ≡ keep_cell c (merge_event_for_streaming c.state ev true)
merge_cell-candidate c ev o e = unfold merge_cell in rw (o, e)

pub merge_cell-plain :
    (c : Shared) (ev : CommandEvent)
    → equal ev.record_type RecordType.command ≡ false
    → is_merge_candidate ev.record_type ≡ false
    → merge_cell c ev ≡ append_cell c c.state ev
merge_cell-plain c ev o e = unfold merge_cell in rw (o, e)

pub merge_record-candidate :
    (m : Merge) (ev : CommandEvent)
    → equal ev.record_type RecordType.command ≡ false
    → is_merge_candidate ev.record_type ≡ true
    → merge_record m ev ≡ keep_row m (merge_event_for_streaming m.state ev true)
merge_record-candidate m ev o e = unfold merge_record in rw (o, e)

pub merge_record-plain :
    (m : Merge) (ev : CommandEvent)
    → equal ev.record_type RecordType.command ≡ false
    → is_merge_candidate ev.record_type ≡ false
    → merge_record m ev ≡ append_row m m.state ev
merge_record-plain m ev o e = unfold merge_record in rw (o, e)
