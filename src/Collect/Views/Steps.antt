-- ===== src/Collect/Views/Steps.antt =====
-- internal/cli/event_merge.go: one round of `mergeEventsForList` for each kind of record, next to the
-- row that the record gives alone.
use prec.Base.{
  ℕ, ◌≡◌, refl, ap, ◌∙◌, ◌≢◌, ◌⊎◌, inl, inr, true, false, Option, none, some, [], ◌∷◌, ◌++◌,
  Bool-cases, length, set,
}
use prec.Text.{Text, equal, equal_iff, is_empty}
use prec.Event.{CommandEvent}
use prec.Event.RecordType
use prec.Join.{
  JoinState, lookup, store, erase, is_merge_candidate, merged_command_from_start, apply_command_end,
  merged_event_without_command_end, merge_with_end, merge_event_for_streaming, Merge, append_row,
  place_row, keep_row, merge_record,
}
use prec.Join.InPlace.Branches.{place_row-new, place_row-old, merge_record-candidate}

pub step-command :
    (m : Merge) (ev : CommandEvent)
    → ev.record_type ≡ RecordType.command
    → (merge_record m ev ≡ m) × (merged_event_without_command_end ev ≡ none)
unfolding merge_record merged_event_without_command_end equal
step-command m ev h = (rw h, rw h)

-- A start or end record goes through `merge_event_for_streaming`.
through :
    (m : Merge) (ev : CommandEvent) (row : Option CommandEvent) (state : JoinState)
    → (ev.record_type ≡ RecordType.start) ⊎ (ev.record_type ≡ RecordType.end)
    → merge_with_end m.state ev ≡ (row, state)
    → merge_record m ev ≡ keep_row m (row, state)
through m ev row state kind e =
    merge_record-candidate m ev (named kind).0 (named kind).1
    ∙ ap (keep_row m) (unfold merge_event_for_streaming in e)
  where
    named :
        (ev.record_type ≡ RecordType.start) ⊎ (ev.record_type ≡ RecordType.end)
        → (equal ev.record_type RecordType.command ≡ false)
          × (is_merge_candidate ev.record_type ≡ true)
    named (inl h) = (unfold equal in rw h, unfold is_merge_candidate equal in rw h)
    named (inr h) = (unfold equal in rw h, unfold is_merge_candidate equal in rw h)

pub step-start :
    (m : Merge) (ev : CommandEvent)
    → ev.record_type ≡ RecordType.start
    → is_empty ev.event_id ≡ false
    → lookup ev.event_id m.index_by_event_id ≡ none
    → (merge_record m ev ≡ record {
      state = store ev.event_id (merged_command_from_start ev) m.state;
      out = m.out ++ (merged_command_from_start ev ∷ []);
      index_by_event_id = store ev.event_id (length m.out) m.index_by_event_id;
    })
      × (merged_event_without_command_end ev ≡ some (merged_command_from_start ev))
step-start m ev h n fresh = (
  started
      ∙ place_row-new m _ (merged_command_from_start ev) (unfold merged_command_from_start in n)
          (unfold merged_command_from_start in fresh)
      ∙ unfold merged_command_from_start in refl,
  unfold merged_event_without_command_end equal in rw h,
)
  where
    started :
        merge_record m ev
        ≡ place_row m
            (store ev.event_id (merged_command_from_start ev) m.state)
            (merged_command_from_start ev)
    started =
        through m ev (some (merged_command_from_start ev))
          (store ev.event_id (merged_command_from_start ev) m.state) (inl h)
          (unfold merge_with_end equal is_merge_candidate in rw (h, n))
        ∙ unfold keep_row in refl

pub step-end_unknown :
    (m : Merge) (ev : CommandEvent)
    → ev.record_type ≡ RecordType.end
    → (is_empty ev.event_id ≡ true) ⊎ (lookup ev.event_id m.state ≡ none)
    → (merge_record m ev ≡ m) × (merged_event_without_command_end ev ≡ none)
unfolding merge_record merged_event_without_command_end equal is_merge_candidate
    merge_event_for_streaming merge_with_end keep_row
step-end_unknown m ev h (inl e) = (rw (h, e), rw h)
step-end_unknown m ev h (inr e) = elim (Bool-cases (is_empty ev.event_id)) [
  | inl n ↦ (rw (h, n), rw h)
  | inr n ↦ (rw (h, n, e), rw h)
]

pub step-end_known :
    (m : Merge) (ev start : CommandEvent) (k : ℕ)
    → ev.record_type ≡ RecordType.end
    → is_empty ev.event_id ≡ false
    → lookup ev.event_id m.state ≡ some start
    → start.event_id ≡ ev.event_id
    → lookup ev.event_id m.index_by_event_id ≡ some k
    → (merge_record m ev ≡ record m {
      state = erase ev.event_id m.state;
      out = set m.out k (apply_command_end start ev);
    })
      × (merged_event_without_command_end ev ≡ none)
step-end_known m ev start k h n s same place = (
  joined
      ∙ place_row-old m _ (apply_command_end start ev) k (unfold apply_command_end in rw same n)
          (unfold apply_command_end in rw same place),
  unfold merged_event_without_command_end equal in rw h,
)
  where
    joined :
        merge_record m ev ≡ place_row m (erase ev.event_id m.state) (apply_command_end start ev)
    joined =
        through m ev (some (apply_command_end start ev)) (erase ev.event_id m.state) (inr h)
          (unfold merge_with_end equal is_merge_candidate apply_command_end erase in rw (h, n, s))
        ∙ unfold keep_row in refl

pub step-other :
    (m : Merge) (ev : CommandEvent)
    → ev.record_type ≢ RecordType.command
    → ev.record_type ≢ RecordType.start
    → ev.record_type ≢ RecordType.end
    → (merge_record m ev ≡ append_row m m.state ev)
      × (merged_event_without_command_end ev ≡ some ev)
unfolding merge_record merged_event_without_command_end is_merge_candidate
step-other m ev c s e =
    let c' : equal ev.record_type RecordType.command ≡ false = differs c in
    let s' : equal ev.record_type RecordType.start ≡ false = differs s in
    let e' : equal ev.record_type RecordType.end ≡ false = differs e in
    (rw (c', s', e'), rw (s', e', c'))
  where
    differs : {a b : Text} → a ≢ b → equal a b ≡ false
    differs {a = a} {b = b} n = elim (Bool-cases (equal a b)) [
      | inl y ↦ absurd (n ((equal_iff a b).0 y))
      | inr y ↦ y
    ]
