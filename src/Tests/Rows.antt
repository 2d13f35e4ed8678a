-- ===== src/Tests/Rows.antt =====
-- internal/cli/event_merge.go and internal/cli/event_collection.go on two commands, of which one
-- has ended.
use prec.Base.{refl, none, ◌≤◌, ◌≡◌, some, List, [], ◌∷◌, take, pos}
use prec.Text.{codes}
use prec.Event.{CommandEvent, empty_event}
use prec.Event.RecordType
use prec.Join.{merge_with_end, lookup, merged_command_from_start, merge_events_for_list}
use prec.Join.InPlace.{merge_in_place}
use prec.Join.InPlace.Rows.{merge_in_place_refines}
use prec.Join.Pending.{stream_rows, rows_by_history, stream_rows-history}
use prec.Event.Build.{normalize_timestamp, build_command_end_event}
use prec.Join.Ended.{merge_with_end-build_command_end_event}
use prec.Window.{new_event_window, add_all, events}
use prec.Window.Newest.{events-newest}

abbrev first_start : CommandEvent
first_start = record empty_event { record_type = RecordType.start; event_id = codes "a"; uid = 7 }

abbrev second_start : CommandEvent
second_start = record empty_event { record_type = RecordType.start; event_id = codes "b" }

abbrev first_end : CommandEvent
first_end = record empty_event {
  record_type = RecordType.end;
  event_id = codes "a";
  timestamp = codes "t";
  exit_status = some (pos 2);
}

abbrev records : List CommandEvent
records = first_start ∷ second_start ∷ first_end ∷ []

merge_in_place_refines_example :
    let (cells, out_len, left) = merge_in_place records [] in
    ((take out_len cells, left) ≡ merge_events_for_list records []) × (out_len ≤ 3)
merge_in_place_refines_example = merge_in_place_refines records []

stream_rows-history_example : stream_rows [] records ≡ rows_by_history [] records
stream_rows-history_example = stream_rows-history records

events-newest_example :
    events (add_all (new_event_window (pos 2)) records) ≡ second_start ∷ first_end ∷ []
events-newest_example = events-newest (pos 2) records

merge_with_end-build_command_end_event_example :
    let (first, pending) = merge_with_end [] first_start in
    let (second, left) =
      merge_with_end pending
        (build_command_end_event [] first_start (codes "t") (pos 9) (some (pos 2))) in
    (first ≡ some (merged_command_from_start first_start))
    × (second
        ≡ some (record first_start {
          record_type = RecordType.command;
          end_timestamp = normalize_timestamp [] (codes "t");
          duration_ns = some (pos 9);
          exit_status = some (pos 2);
        }))
    × (lookup (codes "a") left ≡ none)
merge_with_end-build_command_end_event_example =
    merge_with_end-build_command_end_event [] [] first_start (codes "t") (pos 9) (some (pos 2)) refl
      refl
