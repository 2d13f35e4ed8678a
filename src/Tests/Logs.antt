-- ===== src/Tests/Logs.antt =====
-- internal/cli/event_collection.go on one log of a start and an end record.
use prec.Base.{
  ◌≡◌, refl, sym, ap, Option, none, some, List, [], ◌∷◌, ◌==◌, if◌then◌else◌, pos, Result, ok,
}
use prec.Text.{Text, codes, has_prefix, index, contains}
use prec.Event.{CommandEvent, empty_event}
use prec.Event.RecordType
use prec.Join.{JoinState, merge_events_for_list}
use prec.Collect.{command_end_record_type_marker, collect_with_join, collect_streaming}
use prec.Collect.Newest.{shown, shown_joined, collect_with_join-shown}
use prec.Collect.Streaming.{start_rows, collect_streaming-shown}
use prec.Collect.Views.{MarkedEnds, collect_streaming-collect_with_join}
use prec.Collect.Views.Same.{SameStarts, StartsDistinct}
use prec.Collect.Views.Agrees.{merge_events_for_list-start_rows}
use prec.Tests.Queries.{clock, uid_spec, uid_filter, uid_filter_built, uid_filter_needs_no_end}

abbrev pub logged_start : CommandEvent
logged_start = record empty_event { record_type = RecordType.start; event_id = codes "a" }

abbrev pub logged_end : CommandEvent
logged_end = record empty_event {
  record_type = RecordType.end;
  event_id = codes "a";
  exit_status = some (pos 1);
}

-- A stand-in for the decoder: a start record is written "s", an end record as the end marker alone.
abbrev pub decode : Text → Option CommandEvent
decode [] = none
decode (c ∷ _) = if c == b's' then some logged_start else if c == 34 then some logged_end else none

abbrev pub read_lines : Text → Result Text (List Text)
read_lines log_path = ok (codes "s" ∷ command_end_record_type_marker ∷ [])

abbrev pub log_paths : List Text
log_paths = codes "prec.log" ∷ []

collect_with_join-shown_example :
    collect_with_join read_lines decode log_paths (pos 1) uid_filter []
    ≡ ok (shown_joined (pos 1) uid_filter [] (logged_start ∷ logged_end ∷ []))
collect_with_join-shown_example =
    collect_with_join-shown read_lines decode log_paths (pos 1) uid_filter []

collect_streaming-shown_example :
    collect_streaming read_lines decode log_paths (pos 1) uid_filter
    ≡ ok (shown (pos 1) uid_filter (start_rows (logged_start ∷ [])))
unfolding contains index has_prefix
collect_streaming-shown_example =
    collect_streaming-shown read_lines decode log_paths (pos 1) uid_filter

pub distinct : StartsDistinct (logged_start ∷ logged_end ∷ [])
distinct = ((λ _. (refl, ((λ h. cc h), tt))), ((λ h. cc h), tt))

pub marked : MarkedEnds decode (codes "s" ∷ command_end_record_type_marker ∷ [])
unfolding contains index has_prefix
marked =
    ((λ h ev e. cc h), ((λ h ev e. ap (λ (r : CommandEvent). r.record_type) (sym (same ev e))), tt))
  where
    same : (ev : CommandEvent) → some logged_end ≡ some ev → logged_end ≡ ev
    same ev e = cc

merge_events_for_list-start_rows_example :
    SameStarts
      (merge_events_for_list (logged_start ∷ logged_end ∷ []) []).0
      (start_rows (logged_start ∷ logged_end ∷ []))
merge_events_for_list-start_rows_example =
    merge_events_for_list-start_rows (logged_start ∷ logged_end ∷ []) distinct

collect_streaming-collect_with_join_example :
    (joined starts : List CommandEvent) × (left : JoinState) × (collect_with_join read_lines decode
        log_paths
        (pos 1)
        uid_filter
        []
      ≡ ok (joined, left))
    × (collect_streaming read_lines decode log_paths (pos 1) uid_filter ≡ ok starts)
    × SameStarts joined starts
collect_streaming-collect_with_join_example =
    collect_streaming-collect_with_join read_lines decode clock (uid_spec ∷ []) uid_filter
      uid_filter_built uid_filter_needs_no_end log_paths
      (codes "s" ∷ command_end_record_type_marker ∷ []) (pos 1) refl marked distinct
