-- ===== src/Collect/Views/Agrees.antt =====
-- internal/cli/event_merge.go: `mergeEventsForList` against the rows that the records give alone.
use prec.Base.{
  get_elem?-append_some, get_elem?-append_last, ℕ, ◌≡◌, refl, sym, ap, ◌∙◌, ◌≢◌, inl, inr, true,
  false, Option, none, some, List, [], ◌∷◌, ◌++◌, append-nil, append_assoc, arith, Bool-cases,
  Option-cases, length, get_elem?, set,
}
use mathlib.Core.Path.{subst}
use prec.Text.{Text, equal, equal_iff, is_empty}
use prec.Event.{CommandEvent}
use prec.Event.RecordType
use prec.Join.{
  lookup, store, erase, or_else, merged_command_from_start, apply_command_end,
  merged_event_without_command_end, Merge, append_row, merge_record, merge_records,
  merge_events_for_list,
}
use prec.Join.Pending.{lookup-store, lookup-erase}
use prec.Collect.Newest.{kept}
use prec.Collect.Streaming.{start_rows}
use prec.Collect.Views.Same.{
  SameStart, SameStarts, self, SameStarts-append, SameStarts-set, SameStarts-length, NoStart,
  StartsDistinct,
}
use prec.Collect.Views.Steps.{
  step-command, step-start, step-end_unknown, step-end_known, step-other,
}

-- A pending start stands among the rows, at the place that is known for its event id.
record Placed (m : Merge) (starts : List CommandEvent) (id : Text) (s : CommandEvent) : Type 0 where
  named : s.event_id ≡ id
  command : s.record_type ≡ RecordType.command
  place : ℕ
  known : lookup id m.index_by_event_id ≡ some place
  there : get_elem? starts place ≡ some s

-- The joined rows so far and the rows of the records alone; `raw` is still to come.
record Agrees (m : Merge) (starts raw : List CommandEvent) : Type 0 where
  same : SameStarts m.out starts
  pending : (id : Text) (s : CommandEvent) → lookup id m.state ≡ some s → Placed m starts id s
  fresh : (id : Text) (k : ℕ) → lookup id m.index_by_event_id ≡ some k → NoStart id raw

Agrees-skip :
    (m : Merge) (starts raw : List CommandEvent) (ev : CommandEvent)
    → Agrees m starts (ev ∷ raw)
    → Agrees m starts raw
Agrees-skip m starts raw ev a = record {
  same = a.same;
  pending = λ id s h.
      let p : Placed m starts id s = a.pending id s h in
      record {
        named = p.named;
        command = p.command;
        place = p.place;
        known = p.known;
        there = p.there;
      };
  fresh = λ id k h. (a.fresh id k h).1;
}

Agrees-other :
    (m : Merge) (starts raw : List CommandEvent) (ev : CommandEvent)
    → Agrees m starts (ev ∷ raw)
    → Agrees (append_row m m.state ev) (starts ++ (ev ∷ [])) raw
Agrees-other m starts raw ev a = record {
  same = SameStarts-append m.out starts _ _ a.same (self ev, tt);
  pending = λ id s h.
      let p : Placed m starts id s = a.pending id s h in
      record {
        named = p.named;
        command = p.command;
        place = p.place;
        known = p.known;
        there = get_elem?-append_some starts _ p.place s p.there;
      };
  fresh = λ id k h. (a.fresh id k h).1;
}

joined-SameStart :
    (s ev : CommandEvent)
    → s.record_type ≡ RecordType.command
    → SameStart (apply_command_end s ev) s
joined-SameStart s ev h = (
  ev.timestamp,
  or_else ev.duration_ns s.duration_ns,
  or_else ev.exit_status s.exit_status,
  unfold apply_command_end in
      ap
        (λ (record_type : Text). record s {
          record_type = record_type;
          end_timestamp = ev.timestamp;
          duration_ns = or_else ev.duration_ns s.duration_ns;
          exit_status = or_else ev.exit_status s.exit_status;
        })
        (sym h),
)

Agrees-end :
    (m : Merge) (starts raw : List CommandEvent) (ev s : CommandEvent)
    → (a : Agrees m starts (ev ∷ raw)) → (p : Placed m starts ev.event_id s)
    → Agrees
        (record m {
          state = erase ev.event_id m.state;
          out = set m.out p.place (apply_command_end s ev);
        })
        starts
        raw
Agrees-end m starts raw ev s a p = record {
  same =
      SameStarts-set m.out starts p.place (apply_command_end s ev) s a.same p.there
        (joined-SameStart s ev p.command);
  pending = λ id s' h.
      let q : Placed m starts id s' = a.pending id s' (left id s' h) in
      record {
        named = q.named;
        command = q.command;
        place = q.place;
        known = q.known;
        there = q.there;
      };
  fresh = λ id k h. (a.fresh id k h).1;
}
  where
    left :
        (id : Text) (s' : CommandEvent)
        → lookup id (erase ev.event_id m.state) ≡ some s'
        → lookup id m.state ≡ some s'
    left id s' h = ground (arith, lookup-erase ev.event_id id m.state)

-- The join after a start record with an event id of its own.
abbrev started : Merge → CommandEvent → Merge
started m ev = record {
  state = store ev.event_id (merged_command_from_start ev) m.state;
  out = m.out ++ (merged_command_from_start ev ∷ []);
  index_by_event_id = store ev.event_id (length m.out) m.index_by_event_id;
}

store-here :
    {V : Type 0} (id key : Text) (v : V) (m : List (Text × V))
    → equal id key ≡ true
    → lookup id (store key v m) ≡ some v
store-here id key v m e = lookup-store key id v m ∙ rw e

store-elsewhere :
    {V : Type 0} (id key : Text) (v : V) (m : List (Text × V))
    → equal id key ≡ false
    → lookup id (store key v m) ≡ lookup id m
store-elsewhere id key v m e = lookup-store key id v m ∙ rw e

Placed-start :
    (m : Merge) (starts raw : List CommandEvent) (ev : CommandEvent)
    → Agrees m starts (ev ∷ raw)
    → (id : Text) (s : CommandEvent) → lookup id (started m ev).state ≡ some s
    → Placed (started m ev) (starts ++ (merged_command_from_start ev ∷ [])) id s
Placed-start m starts raw ev a id s h = elim (Bool-cases (equal id ev.event_id)) [
  | inl e ↦
      let found : some (merged_command_from_start ev) ≡ some s =
        sym (store-here id ev.event_id _ m.state e) ∙ h in
      let same_row : merged_command_from_start ev ≡ s = some_injective found in
      let here : id ≡ ev.event_id = (equal_iff id ev.event_id).0 e in
      record {
        named =
            ap (λ (r : CommandEvent). r.event_id) (sym same_row)
            ∙ unfold merged_command_from_start in sym here;
        command =
            ap (λ (r : CommandEvent). r.record_type) (sym same_row)
            ∙ unfold merged_command_from_start in refl;
        place = length m.out;
        known = store-here id ev.event_id _ m.index_by_event_id e;
        there =
            ap (get_elem? (starts ++ (merged_command_from_start ev ∷ [])))
              (SameStarts-length m.out starts a.same)
            ∙ get_elem?-append_last starts (merged_command_from_start ev)
            ∙ found;
      }
  | inr e ↦
      let p : Placed m starts id s =
        a.pending id s (sym (store-elsewhere id ev.event_id _ m.state e) ∙ h) in
      record {
        named = p.named;
        command = p.command;
        place = p.place;
        known = store-elsewhere id ev.event_id _ m.index_by_event_id e ∙ p.known;
        there = get_elem?-append_some starts _ p.place s p.there;
      }
]
  where
    some_injective : {a b : CommandEvent} → some a ≡ some b → a ≡ b
    some_injective p = cc

Agrees-start :
    (m : Merge) (starts raw : List CommandEvent) (ev : CommandEvent)
    → NoStart ev.event_id raw
    → Agrees m starts (ev ∷ raw)
    → Agrees (started m ev) (starts ++ (merged_command_from_start ev ∷ [])) raw
Agrees-start m starts raw ev later a = record {
  same = SameStarts-append m.out starts _ _ a.same (self (merged_command_from_start ev), tt);
  pending = Placed-start m starts raw ev a;
  fresh = λ id k h. elim (Bool-cases (equal id ev.event_id)) [
    | inl e ↦ subst (λ (i : Text). NoStart i raw) (sym ((equal_iff id ev.event_id).0 e)) later
    | inr e ↦ (a.fresh id k (sym (store-elsewhere id ev.event_id _ m.index_by_event_id e) ∙ h)).1
  ];
}

-- One record, by its kind.
Agrees-record :
    (m : Merge) (starts raw : List CommandEvent) (ev : CommandEvent)
    → StartsDistinct (ev ∷ raw)
    → Agrees m starts (ev ∷ raw)
    → Agrees (merge_record m ev) (starts ++ kept (merged_event_without_command_end ev) []) raw
Agrees-record m starts raw ev distinct a =
    elim (Bool-cases (equal ev.record_type RecordType.command)) [
      | inl c ↦ unchanged (step-command m ev (is c))
      | inr c ↦ elim (Bool-cases (equal ev.record_type RecordType.start)) [
        | inl s ↦ start_record (is s)
        | inr s ↦ elim (Bool-cases (equal ev.record_type RecordType.end)) [
          | inl e ↦ end_record (is e)
          | inr e ↦
              moved _ _ (step-other m ev (is_not c) (is_not s) (is_not e))
                (Agrees-other m starts raw ev a)
        ]
      ]
    ]
  where
    is : {a b : Text} → equal a b ≡ true → a ≡ b
    is {a = a} {b = b} e = (equal_iff a b).0 e

    is_not : {a b : Text} → equal a b ≡ false → a ≢ b
    is_not {a = a} {b = b} e p = cc (e, (equal_iff a b).1 p)

    moved :
        (m' : Merge) (row : Option CommandEvent)
        → (merge_record m ev ≡ m') × (merged_event_without_command_end ev ≡ row)
        → Agrees m' (starts ++ kept row []) raw
        → Agrees (merge_record m ev) (starts ++ kept (merged_event_without_command_end ev) []) raw
    moved m' row (e, f) b = rw (e, f) b

    stay : (m' : Merge) → Agrees m' starts raw → Agrees m' (starts ++ []) raw
    stay m' b = rw append-nil b

    unchanged :
        (merge_record m ev ≡ m) × (merged_event_without_command_end ev ≡ none)
        → Agrees (merge_record m ev) (starts ++ kept (merged_event_without_command_end ev) []) raw
    unchanged step = moved m none step (stay m (Agrees-skip m starts raw ev a))

    start_record :
        ev.record_type ≡ RecordType.start
        → Agrees (merge_record m ev) (starts ++ kept (merged_event_without_command_end ev) []) raw
    start_record h = elim (Option-cases (lookup ev.event_id m.index_by_event_id)) [
      | inl n ↦
          moved _ _ (step-start m ev h (distinct.0 h).0 n)
            (Agrees-start m starts raw ev (distinct.0 h).1 a)
      | inr (k, e) ↦ absurd ((a.fresh ev.event_id k e).0 h refl)
    ]

    end_record :
        ev.record_type ≡ RecordType.end
        → Agrees (merge_record m ev) (starts ++ kept (merged_event_without_command_end ev) []) raw
    end_record h = elim (Bool-cases (is_empty ev.event_id)) [
      | inl n ↦ unchanged (step-end_unknown m ev h (inl n))
      | inr n ↦ elim (Option-cases (lookup ev.event_id m.state)) [
        | inl e ↦ unchanged (step-end_unknown m ev h (inr e))
        | inr (s, e) ↦
            let p : Placed m starts ev.event_id s = a.pending ev.event_id s e in
            moved _ none (step-end_known m ev s p.place h n e p.named p.known)
              (stay _ (Agrees-end m starts raw ev s a p))
      ]
    ]

Agrees-records :
    (raw : List CommandEvent) (m : Merge) (starts : List CommandEvent)
    → StartsDistinct raw
    → Agrees m starts raw
    → SameStarts (merge_records m raw).out (starts ++ start_rows raw)
unfolding merge_records
Agrees-records [] m starts distinct a = rw append-nil a.same
Agrees-records (ev ∷ raw) m starts distinct a =
    subst (SameStarts (merge_records (merge_record m ev) raw).out)
      (regroup (merged_event_without_command_end ev))
      (Agrees-records raw (merge_record m ev)
        (starts ++ kept (merged_event_without_command_end ev) []) distinct.1
        (Agrees-record m starts raw ev distinct a))
  where
    regroup :
        (row : Option CommandEvent)
        → (starts ++ kept row []) ++ start_rows raw ≡ starts ++ kept row (start_rows raw)
    regroup none = rw append-nil
    regroup (some row) = rw append_assoc

-- If start records have event ids, no two the same, then joining from an empty state gives the rows
-- that the records give one by one, in the same order and with the same fields, but for the end
-- timestamp, the duration and the exit status.
pub merge_events_for_list-start_rows :
    (raw : List CommandEvent)
    → StartsDistinct raw
    → SameStarts (merge_events_for_list raw []).0 (start_rows raw)
unfolding merge_events_for_list
merge_events_for_list-start_rows raw distinct =
    Agrees-records raw (record { state = []; out = []; index_by_event_id = [] }) [] distinct
      (record {
        same = tt;
        pending = λ id s h. absurd (nothing id _ h);
        fresh = λ id k h. absurd (nothing id _ h);
      })
  where
    nothing : {V : Type 0} (id : Text) (v : V) → ◌≡◌ {A = Option V} (lookup id []) (some v) → ⊥
    nothing id v h = unfold lookup in cc h
