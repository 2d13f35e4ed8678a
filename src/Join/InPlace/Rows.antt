-- ===== src/Join/InPlace/Rows.antt =====
-- internal/cli/event_merge.go: the rows in the shared array against those of a fresh list.
use prec.Base.{
  ℕ, zero, suc, ◌+◌, ◌≤◌, ◌<◌, ◌≡◌, refl, sym, ap, ap₂, ◌∙◌, inl, inr, true, Option, none, some,
  List, [], ◌∷◌, ◌++◌, arith, Bool-cases, Option-cases, length, get_elem?, set, take, drop,
}
use mathlib.Core.Path.{subst₂}
use native.Mathlib.Numerals.{add-one}
use prec.Base.{take-set_next, take-set, drop-set, drop-cons, length-take, length-set}
use prec.Text.{Text, equal, is_empty}
use prec.Event.{CommandEvent}
use prec.Event.RecordType
use prec.Join.{
  Table, lookup, store, JoinState, is_merge_candidate, merge_event_for_streaming, Merge, append_row,
  place_row, keep_row, merge_record, merge_records, merge_events_for_list,
}
use prec.Join.InPlace.Branches.{
  place_cell-anonymous, place_cell-new, place_cell-old, place_row-anonymous, place_row-new,
  place_row-old, merge_cell-command, merge_record-command, merge_cell-candidate,
  merge_record-candidate, merge_cell-plain, merge_record-plain,
}
use prec.Join.InPlace.{
  Shared, append_cell, place_cell, keep_cell, merge_cell, merge_cells, clear_from, merge_in_place,
}

-- Every index of the table is below `n`.
abbrev Below : ℕ → Table ℕ → Type 0
Below n [] = Unit {0}
Below n ((_, v) ∷ t) = (v < n) × Below n t

Below-lookup :
    (n : ℕ) (t : Table ℕ) (key : Text) (v : ℕ) → Below n t → lookup key t ≡ some v → v < n
unfolding lookup
Below-lookup n [] key v b h = cc
Below-lookup n ((k, w) ∷ t) key v b h = ground (arith, Below-lookup n t key v b.1)

Below-suc : (n : ℕ) (t : Table ℕ) → Below n t → Below (n + 1) t
Below-suc n [] b = tt
Below-suc n ((k, w) ∷ t) b = (omega arith, Below-suc n t b.1)

Below-store :
    (n : ℕ) (t : Table ℕ) (key : Text) (v : ℕ) → v < n → Below n t → Below n (store key v t)
unfolding store
Below-store n [] key v h b = (h, tt)
Below-store n ((k, w) ∷ t) key v h b = elim (Bool-cases (equal key k)) [
  | inl same ↦ rw same (h, b.1)
  | inr other ↦ rw other (b.0, Below-store n t key v h b.1)
]

-- Before round `i` the array holds the rows of the fresh list in front, and no more of them than
-- records have been read.
record Simulates (i : ℕ) (c : Shared) (m : Merge) : Type 0 where
  state : c.state ≡ m.state
  index : c.index_by_event_id ≡ m.index_by_event_id
  rows : take c.out_len c.cells ≡ m.out
  behind : c.out_len ≤ i
  indices : Below c.out_len m.index_by_event_id

-- After a round: the next round can begin, and what it will read is as it was.
record Rounds (i : ℕ) (c d : Shared) (m : Merge) : Type 0 where
  next : Simulates (suc i) d m
  unread : drop (suc i) d.cells ≡ drop (suc i) c.cells
  size : length d.cells ≡ length c.cells

module _ (i : ℕ) (c : Shared) (m : Merge) (s : Simulates i c m) (fits : i < length c.cells) where
  length-rows : length m.out ≡ c.out_len
  length-rows = rw (← s.rows) (length-take c.out_len c.cells ∙ omega (arith, s.behind))

  skip-Rounds :
      (state : JoinState) → Rounds i c (record c { state = state }) (record m { state = state })
  skip-Rounds state = record {
    next = record {
      state = refl;
      index = s.index;
      rows = s.rows;
      behind = omega (arith, s.behind);
      indices = s.indices;
    };
    unread = refl;
    size = refl;
  }

  append_cell-Rounds :
      (state : JoinState) (row : CommandEvent)
      → Rounds i c (append_cell c state row) (append_row m state row)
  append_cell-Rounds state row = record {
    next = record {
      state = refl;
      index = s.index;
      rows =
          take-set_next c.cells c.out_len row (omega (arith, s.behind))
          ∙ ap (λ (r : List CommandEvent). r ++ (row ∷ [])) s.rows;
      behind = omega (arith, s.behind);
      indices = Below-suc c.out_len m.index_by_event_id s.indices;
    };
    unread = drop-set c.cells (suc i) c.out_len row (omega (arith, s.behind));
    size = length-set c.cells c.out_len row;
  }

  new_cell-Rounds :
      (state : JoinState) (row : CommandEvent) (key : Text)
      → Rounds i c
          (record {
            state = state;
            cells = set c.cells c.out_len row;
            out_len = c.out_len + 1;
            index_by_event_id = store key c.out_len c.index_by_event_id;
          })
          (record {
            state = state;
            out = m.out ++ (row ∷ []);
            index_by_event_id = store key (length m.out) m.index_by_event_id;
          })
  new_cell-Rounds state row key =
      let a = append_cell-Rounds state row in
      record {
        next = record {
          state = refl;
          index = rw (length-rows, s.index);
          rows = a.next.rows;
          behind = a.next.behind;
          indices = rw length-rows (
              Below-store (c.out_len + 1) m.index_by_event_id key c.out_len (omega arith)
                a.next.indices);
        };
        unread = a.unread;
        size = a.size;
      }

  old_cell-Rounds :
      (state : JoinState) (row : CommandEvent) (idx : ℕ)
      → idx < c.out_len
      → Rounds i c
          (record c { state = state; cells = set c.cells idx row })
          (record m { state = state; out = set m.out idx row })
  old_cell-Rounds state row idx h = record {
    next = record {
      state = refl;
      index = s.index;
      rows =
          take-set c.cells c.out_len idx row h
          ∙ ap (λ (r : List CommandEvent). set r idx row) s.rows;
      behind = omega (arith, s.behind);
      indices = s.indices;
    };
    unread = drop-set c.cells (suc i) idx row (omega (arith, s.behind));
    size = length-set c.cells idx row;
  }

  same-Rounds : Rounds i c c m
  same-Rounds = record {
    next = record {
      state = s.state;
      index = s.index;
      rows = s.rows;
      behind = omega (arith, s.behind);
      indices = s.indices;
    };
    unread = refl;
    size = refl;
  }

  place_cell-Rounds :
      (state : JoinState) (row : CommandEvent)
      → Rounds i c (place_cell c state row) (place_row m state row)
  place_cell-Rounds state row = elim (Bool-cases (is_empty row.event_id)) [
    | inl anonymous ↦
        subst₂ (Rounds i c) (sym (place_cell-anonymous c state row anonymous))
          (sym (place_row-anonymous m state row anonymous)) (append_cell-Rounds state row)
    | inr named ↦ elim (Option-cases (lookup row.event_id m.index_by_event_id)) [
      | inl new ↦
          subst₂ (Rounds i c)
            (sym (place_cell-new c state row named (ap (lookup row.event_id) s.index ∙ new)))
            (sym (place_row-new m state row named new)) (new_cell-Rounds state row row.event_id)
      | inr (idx, old) ↦
          subst₂ (Rounds i c)
            (sym (place_cell-old c state row idx named (ap (lookup row.event_id) s.index ∙ old)))
            (sym (place_row-old m state row idx named old))
            (old_cell-Rounds state row idx
              (Below-lookup c.out_len m.index_by_event_id row.event_id idx s.indices old))
    ]
  ]

  keep_cell-Rounds :
      (r : Option CommandEvent × JoinState) → Rounds i c (keep_cell c r) (keep_row m r)
  keep_cell-Rounds (none, state) = unfold keep_cell keep_row in skip-Rounds state
  keep_cell-Rounds (some row, state) = unfold keep_cell keep_row in place_cell-Rounds state row

  merge_cell-Rounds : (ev : CommandEvent) → Rounds i c (merge_cell c ev) (merge_record m ev)
  merge_cell-Rounds ev = elim (Bool-cases (equal ev.record_type RecordType.command)) [
    | inl old_record ↦
        subst₂ (Rounds i c) (sym (merge_cell-command c ev old_record))
          (sym (merge_record-command m ev old_record)) same-Rounds
    | inr other ↦ elim (Bool-cases (is_merge_candidate ev.record_type)) [
      | inl candidate ↦
          subst₂ (Rounds i c)
            (sym (
              merge_cell-candidate c ev other candidate
              ∙ ap (λ (st : JoinState). keep_cell c (merge_event_for_streaming st ev true))
                  s.state))
            (sym (merge_record-candidate m ev other candidate))
            (keep_cell-Rounds (merge_event_for_streaming m.state ev true))
      | inr plain ↦
          subst₂ (Rounds i c)
            (sym (
              merge_cell-plain c ev other plain
              ∙ ap (λ (st : JoinState). append_cell c st ev) s.state))
            (sym (merge_record-plain m ev other plain)) (append_cell-Rounds m.state ev)
    ]
  ]

-- The loop: what is left in the array from `i` on is what the other loop still reads.
merge_cells-Simulates :
    (raw : List CommandEvent) (i : ℕ) (c : Shared) (m : Merge)
    → Simulates i c m
    → drop i c.cells ≡ raw
    → (j : ℕ) × Simulates j (merge_cells (length raw) i c) (merge_records m raw)
      × (length (merge_cells (length raw) i c).cells ≡ length c.cells)
      × (j ≡ i + length raw)
merge_cells-Simulates [] i c m s e = unfold merge_cells merge_records in (i, s, refl, omega arith)
merge_cells-Simulates (ev ∷ raw) i c m s e =
    let (here, rest, fits) = drop-cons c.cells i ev raw e in
    let round = merge_cell-Rounds i c m s fits ev in
    let (j, done, size, rounds) =
      merge_cells-Simulates raw (suc i) (merge_cell c ev) (merge_record m ev) round.next
        (round.unread ∙ rest) in
    finish_round ev raw i c m here (j, done, size ∙ round.size, omega arith)
  where
    finish_round :
        (ev : CommandEvent) (raw : List CommandEvent) (i : ℕ) (c : Shared) (m : Merge)
        → get_elem? c.cells i ≡ some ev
        → ((j : ℕ) × Simulates j
              (merge_cells (length raw) (suc i) (merge_cell c ev))
              (merge_records (merge_record m ev) raw)
            × (length (merge_cells (length raw) (suc i) (merge_cell c ev)).cells ≡ length c.cells)
            × (j ≡ i + length (ev ∷ raw)))
        → (j : ℕ) × Simulates j (merge_cells (suc (length raw)) i c) (merge_records m (ev ∷ raw))
          × (length (merge_cells (suc (length raw)) i c).cells ≡ length c.cells)
          × (j ≡ i + length (ev ∷ raw))
    finish_round ev raw i c m here r =
        unfold merge_cells merge_records in rw (here, add-one, merge_cells) r

take-clear_from : (j : ℕ) (cells : List CommandEvent) → take j (clear_from j cells) ≡ take j cells
unfolding clear_from
take-clear_from zero cells = refl
take-clear_from (suc j) [] = refl
take-clear_from (suc j) (c ∷ cells) = ap (◌∷◌ c) (take-clear_from j cells)

-- `mergeEventsForList`, which builds its rows in the array of the records that it still has to
-- read, returns in front of that array the rows that it would build in a fresh list, with the same
-- join state; the rows are no more than the records.
pub merge_in_place_refines :
    (raw : List CommandEvent) (state : JoinState)
    → let (cells, out_len, left) = merge_in_place raw state in
      ((take out_len cells, left) ≡ merge_events_for_list raw state) × (out_len ≤ length raw)
unfolding merge_in_place merge_events_for_list
merge_in_place_refines raw state =
    let start : Shared = record {
      state = state;
      cells = raw;
      out_len = 0;
      index_by_event_id = [];
    } in
    let fresh : Merge = record { state = state; out = []; index_by_event_id = [] } in
    let s : Simulates 0 start fresh = record {
      state = refl;
      index = refl;
      rows = refl;
      behind = omega arith;
      indices = tt;
    } in
    let (j, done, size, rounds) = merge_cells-Simulates raw 0 start fresh s refl in
    (
      ap₂ (λ (r : List CommandEvent) (st : JoinState). (r, st)) (take-clear_from _ _ ∙ done.rows)
          done.state,
      omega (arith, done.behind),
    )
