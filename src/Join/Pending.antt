-- ===== src/Join/Pending.antt =====
-- internal/cli/event_merge.go: the map of pending commands against the history of the records.
use prec.Base.{
  ◌≡◌, refl, sym, ap, ap₂, ◌∙◌, inl, inr, true, false, not, Option, none, some, List, [], ◌∷◌, ◌++◌,
  arith, if◌then◌else◌, Bool-cases, Option-cases,
}
use prec.Text.{Text, equal, equal_iff, is_empty}
use prec.Event.{CommandEvent}
use prec.Event.RecordType
use prec.Join.{
  Table, lookup, store, erase, JoinState, is_merge_candidate, merged_command_from_start,
  apply_command_end, merge_with_end,
}

module _ {ℓ} {V : Type ℓ} where
  pub lookup-store :
      (k j : Text) (v : V) (m : Table V)
      → lookup j (store k v m) ≡ (if equal j k then some v else lookup j m)
  unfolding lookup store
  lookup-store k j v [] = refl
  lookup-store k j v ((i, w) ∷ m) =
      ground (arith, equal_iff j k, equal_iff k i, equal_iff j i, lookup-store k j v m)

  pub lookup-erase :
      (k j : Text) (m : Table V) → lookup j (erase k m) ≡ (if equal j k then none else lookup j m)
  unfolding lookup erase
  lookup-erase k j [] = ground arith
  lookup-erase k j ((i, w) ∷ m) =
      ground (arith, equal_iff j k, equal_iff k i, equal_iff j i, lookup-erase k j m)

-- The pending start of one command, after one more record.
abbrev after : Text → Option CommandEvent → CommandEvent → Option CommandEvent
after id pending ev =
    if equal id ev.event_id
    then (if equal ev.record_type RecordType.start
        then some (merged_command_from_start ev)
        else if equal ev.record_type RecordType.end
        then none
        else pending)
    else pending

-- The start that is pending for an event id after a history of records.
abbrev pending_after : Text → Option CommandEvent → List CommandEvent → Option CommandEvent
pending_after id pending [] = pending
pending_after id pending (ev ∷ history) = pending_after id (after id pending ev) history

-- The row of a record, given the start that is pending for its event id.
abbrev row_of : Option CommandEvent → CommandEvent → Option CommandEvent
row_of pending ev =
    if equal ev.record_type RecordType.command
    then none
    else if not (is_merge_candidate ev.record_type)
    then some ev
    else if is_empty ev.event_id
    then none
    else if equal ev.record_type RecordType.start
    then some (merged_command_from_start ev)
    else elim pending [ none ↦ none | some start ↦ some (apply_command_end start ev) ]

-- The rows of a list of records, each from the history before it.
abbrev pub rows_by_history : List CommandEvent → List CommandEvent → List (Option CommandEvent)
rows_by_history history [] = []
rows_by_history history (ev ∷ raw) =
    row_of (pending_after ev.event_id none history) ev ∷ rows_by_history (history ++ (ev ∷ [])) raw

-- The rows as the calls of `mergeEventForStreaming` give them, one after the other.
unfoldable pub stream_rows : JoinState → List CommandEvent → List (Option CommandEvent)
stream_rows state [] = []
stream_rows state (ev ∷ raw) =
    let (row, next) = merge_with_end state ev in row ∷ stream_rows next raw

same_empty : (a b : Text) → equal a b ≡ true → is_empty a ≡ is_empty b
same_empty a b e = ap is_empty ((equal_iff a b).0 e)

lookup-merge_with_end :
    (state : JoinState) (ev : CommandEvent) (id : Text)
    → is_empty id ≡ false
    → lookup id (merge_with_end state ev).1 ≡ after id (lookup id state) ev
unfolding merge_with_end is_merge_candidate
lookup-merge_with_end state ev id h = ground (
  arith,
  equal_iff id ev.event_id,
  same_empty id ev.event_id,
  lookup-store ev.event_id id (merged_command_from_start ev) state,
  lookup-erase ev.event_id id state,
)

not_candidate : (t : Text) → equal t RecordType.command ≡ true → is_merge_candidate t ≡ false
not_candidate t e =
    let command : t ≡ RecordType.command = (equal_iff t RecordType.command).0 e in
    rw command (unfold is_merge_candidate equal in refl)

candidate_end :
    (t : Text)
    → is_merge_candidate t ≡ true
    → equal t RecordType.start ≡ false
    → equal t RecordType.end ≡ true
candidate_end t c s = unfold is_merge_candidate in ground arith

merge_with_end-row_of :
    (state : JoinState) (ev : CommandEvent)
    → (merge_with_end state ev).0 ≡ row_of (lookup ev.event_id state) ev
unfolding merge_with_end
merge_with_end-row_of state ev = elim (Option-cases (lookup ev.event_id state)) [
  | inl none_left ↦
      rw (none_left, merge_with_end)
        (ground (arith, not_candidate ev.record_type, candidate_end ev.record_type))
  | inr (start, found) ↦
      rw (found, merge_with_end)
        (ground (arith, not_candidate ev.record_type, candidate_end ev.record_type))
]

pending_after-concat :
    (id : Text) (pending : Option CommandEvent) (history : List CommandEvent) (ev : CommandEvent)
    → pending_after id pending (history ++ (ev ∷ []))
      ≡ after id (pending_after id pending history) ev
pending_after-concat id pending [] ev = refl
pending_after-concat id pending (e ∷ history) ev =
    pending_after-concat id (after id pending e) history ev

-- The map holds the pending starts of a history.
abbrev Tracks : JoinState → List CommandEvent → Type 0
Tracks state history =
    (id : Text) → is_empty id ≡ false → lookup id state ≡ pending_after id none history

row_of_anonymous :
    (a b : Option CommandEvent) (ev : CommandEvent)
    → is_empty ev.event_id ≡ true
    → row_of a ev ≡ row_of b ev
row_of_anonymous a b ev e = rw e

stream_rows-by_history :
    (raw history : List CommandEvent) (state : JoinState)
    → Tracks state history
    → stream_rows state raw ≡ rows_by_history history raw
unfolding stream_rows
stream_rows-by_history [] history state t = refl
stream_rows-by_history (ev ∷ raw) history state t =
    ap₂ ◌∷◌ (merge_with_end-row_of state ev ∙ same_row)
      (stream_rows-by_history raw (history ++ (ev ∷ [])) (merge_with_end state ev).1 next)
  where
    same_row :
        row_of (lookup ev.event_id state) ev ≡ row_of (pending_after ev.event_id none history) ev
    same_row = elim (Bool-cases (is_empty ev.event_id)) [
      | inl anonymous ↦ row_of_anonymous _ _ ev anonymous
      | inr named ↦ ap (λ (o : Option CommandEvent). row_of o ev) (t ev.event_id named)
    ]

    next : Tracks (merge_with_end state ev).1 (history ++ (ev ∷ []))
    next id h =
        lookup-merge_with_end state ev id h
        ∙ ap (λ (o : Option CommandEvent). after id o ev) (t id h)
        ∙ sym (pending_after-concat id none history ev)

-- Joining a stream of records from an empty state: the row of each record is the one that the
-- history before it gives, where an end record is joined with the last start of its event id that
-- no end has followed, and with nothing if there is none.
pub stream_rows-history : (raw : List CommandEvent) → stream_rows [] raw ≡ rows_by_history [] raw
stream_rows-history raw = stream_rows-by_history raw [] [] (λ id h. unfold lookup in refl)
