-- ===== src/Join/Ended.antt =====
-- internal/events/event.go and internal/cli/event_merge.go: the end record that is built for a start
-- record, and its join.
use prec.Base.{◌≡◌, refl, ap, ◌∙◌, false, Option, none, some, ℤ}
use prec.Text.{Text, equal, equal_refl, is_empty}
use prec.Event.{CommandEvent}
use prec.Event.RecordType
use prec.Event.Build.{normalize_timestamp, build_command_end_event}
use prec.Join.{
  JoinState, lookup, store, erase, is_merge_candidate, or_else, merged_command_from_start,
  apply_command_end, merge_with_end,
}
use prec.Join.Pending.{lookup-store, lookup-erase}

started :
    (state : JoinState) (start : CommandEvent)
    → start.record_type ≡ RecordType.start
    → is_empty start.event_id ≡ false
    → merge_with_end state start ≡ (
      some (merged_command_from_start start),
      store start.event_id (merged_command_from_start start) state,
    )
started state start h n = unfold merge_with_end equal is_merge_candidate in rw (h, n)

ended :
    (state : JoinState) (end start : CommandEvent)
    → end.record_type ≡ RecordType.end
    → is_empty end.event_id ≡ false
    → lookup end.event_id state ≡ some start
    → merge_with_end state end ≡ (some (apply_command_end start end), erase end.event_id state)
ended state end start h n s =
    unfold merge_with_end equal is_merge_candidate apply_command_end erase in rw (h, n, s)

or_else-none : (o : Option ℤ) → or_else o none ≡ o
or_else-none none = refl
or_else-none (some v) = refl

-- From any join state, a start record with an event id, and then the end record that
-- `BuildCommandEndEvent` builds from it, give two rows: the command as it starts, and the same with
-- the end's time, duration and, if it is known, exit status. Then no start is pending for that id.
pub merge_with_end-build_command_end_event :
    (now : Text) (state : JoinState) (start : CommandEvent) (end_timestamp : Text) (d : ℤ)
    (exit_status : Option ℤ)
    → start.record_type ≡ RecordType.start
    → is_empty start.event_id ≡ false
    → let (first, pending) = merge_with_end state start in
      let (second, left) =
        merge_with_end pending (build_command_end_event now start end_timestamp d exit_status) in
      (first ≡ some (merged_command_from_start start))
      × (second
          ≡ some (record start {
            record_type = RecordType.command;
            end_timestamp = normalize_timestamp now end_timestamp;
            duration_ns = some d;
            exit_status = exit_status;
          }))
      × (lookup start.event_id left ≡ none)
merge_with_end-build_command_end_event now state start end_timestamp d exit_status h n =
    let end : CommandEvent = build_command_end_event now start end_timestamp d exit_status in
    let merged : CommandEvent = merged_command_from_start start in
    let same_id : end.event_id ≡ start.event_id = unfold build_command_end_event in refl in
    let named : is_empty end.event_id ≡ false = ap is_empty same_id ∙ n in
    let pending : lookup end.event_id (store start.event_id merged state) ≡ some merged =
      ap (λ (id : Text). lookup id (store start.event_id merged state)) same_id
      ∙ lookup-store start.event_id start.event_id merged state
      ∙ rw (equal_refl start.event_id) in
    let gone : lookup start.event_id (erase end.event_id (store start.event_id merged state))
        ≡ none =
      lookup-erase end.event_id start.event_id (store start.event_id merged state)
      ∙ rw (same_id, equal_refl start.event_id) in
    rw
      (
        started state start h n,
        ended (store start.event_id merged state) end merged
            (unfold build_command_end_event in refl) named pending,
      )
      (
        refl,
        unfold apply_command_end merged_command_from_start build_command_end_event in
            rw (or_else-none exit_status),
        gone,
      )
