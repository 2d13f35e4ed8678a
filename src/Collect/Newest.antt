-- ===== src/Collect/Newest.antt =====
-- internal/cli/event_collection.go: the rows that are selected of the joined ones.
use prec.Base.{
  zero, suc, ◌≡◌, refl, sym, ap, ◌∙◌, inl, inr, true, false, Option, none, some, List, [], ◌∷◌,
  ◌++◌, append-nil, append_assoc, arith, if◌then◌else◌, Bool-cases, Option-cases, ℤ, pos, negsuc,
  pos_part, leb_ℤ, Result, ok, err, ◌>>=◌, Result-cases,
}
use prec.Text.{Text}
use prec.Event.{CommandEvent}
use prec.Join.{JoinState, merge_events_for_list}
use prec.Window.{EventWindow, new_event_window, add, add_all, events}
use prec.Window.Newest.{events-newest}
use prec.Window.Ring.{newest}
use prec.Query.Filter.{Filter, matches}
use prec.Collect.{
  keep_matching, add_matching, append_decoded, append_events_from_log, append_logs,
  collect_with_join,
}

-- The events that a filter matches, in their order.
abbrev pub matching : Filter → List CommandEvent → List CommandEvent
matching lf [] = []
matching lf (ev ∷ evs) = if matches lf ev then ev ∷ matching lf evs else matching lf evs

abbrev pub kept : Option CommandEvent → List CommandEvent → List CommandEvent
kept none rows = rows
kept (some row) rows = row ∷ rows

keep_matching_lem :
    (lf : Filter) (evs out : List CommandEvent) → keep_matching lf evs out ≡ out ++ matching lf evs
unfolding keep_matching
keep_matching_lem lf [] out = sym (append-nil out)
keep_matching_lem lf (ev ∷ evs) out = elim (Bool-cases (matches lf ev)) [
  | inl hit ↦ rw hit (keep_matching_lem lf evs (out ++ (ev ∷ [])) ∙ rw append_assoc)
  | inr miss ↦ rw miss (keep_matching_lem lf evs out)
]

add_matching-add_all :
    (lf : Filter) (evs : List CommandEvent) (w : EventWindow)
    → add_matching lf evs w ≡ add_all w (matching lf evs)
unfolding add_matching add_all
add_matching-add_all lf [] w = refl
add_matching-add_all lf (ev ∷ evs) w = elim (Bool-cases (matches lf ev)) [
  | inl hit ↦ rw hit (add_matching-add_all lf evs (add w ev))
  | inr miss ↦ rw miss (add_matching-add_all lf evs w)
]

-- The rows that are shown: the newest that match.
abbrev pub shown : ℤ → Filter → List CommandEvent → List CommandEvent
shown limit lf rows = newest (pos_part limit) (matching lf rows)

select-shown :
    (limit : ℤ) (lf : Filter) (rows : List CommandEvent)
    → (if leb_ℤ limit (pos 0)
        then keep_matching lf rows []
        else events (add_matching lf rows (new_event_window limit)))
      ≡ shown limit lf rows
select-shown (pos zero) lf rows = keep_matching_lem lf rows []
select-shown (pos (suc n)) lf rows =
    let limited : leb_ℤ (pos (suc n)) (pos 0) ≡ false = ground arith in
    rw limited (
      ap events (add_matching-add_all lf rows (new_event_window (pos (suc n))))
      ∙ events-newest (pos (suc n)) (matching lf rows))
select-shown (negsuc n) lf rows =
    let unlimited : leb_ℤ (negsuc n) (pos 0) ≡ true = ground arith in
    rw unlimited (keep_matching_lem lf rows [])

-- The rows that are shown of all records, joined, and the join state that is left.
abbrev pub shown_joined : ℤ → Filter → JoinState → List CommandEvent → List CommandEvent × JoinState
shown_joined limit lf join_state raw =
    let (merged, left) = merge_events_for_list raw join_state in (shown limit lf merged, left)

kept-append :
    (row : Option CommandEvent) (rows more : List CommandEvent)
    → kept row rows ++ more ≡ kept row (rows ++ more)
kept-append none rows more = refl
kept-append (some row) rows more = refl

module _ {E : Type 0} (read_lines : Text → Result E (List Text))
    (decode : Text → Option CommandEvent) where
  -- All lines of the logs, in their order.
  abbrev pub all_lines : List Text → Result E (List Text)
  all_lines [] = ok []
  all_lines (log_path ∷ log_paths) =
      read_lines log_path >>= λ lines. all_lines log_paths >>= λ more. ok (lines ++ more)

  -- The events of the lines that can be decoded.
  abbrev pub decoded : List Text → List CommandEvent
  decoded [] = []
  decoded (line ∷ lines) = kept (decode line) (decoded lines)

  decoded-append :
      (lines more : List Text) → decoded (lines ++ more) ≡ decoded lines ++ decoded more
  decoded-append [] more = refl
  decoded-append (line ∷ lines) more =
      ap (kept (decode line)) (decoded-append lines more)
      ∙ sym (kept-append (decode line) (decoded lines) (decoded more))

  append_decoded_lem :
      (lines : List Text) (dst : List CommandEvent)
      → append_decoded read_lines decode lines dst ≡ dst ++ decoded lines
  unfolding append_decoded
  append_decoded_lem [] dst = sym (append-nil dst)
  append_decoded_lem (line ∷ lines) dst = elim (Option-cases (decode line)) [
    | inl e ↦ rw e (append_decoded_lem lines dst)
    | inr (ev, e) ↦ rw e (append_decoded_lem lines (dst ++ (ev ∷ [])) ∙ rw append_assoc)
  ]

  append_logs_lem :
      (log_paths : List Text) (raw : List CommandEvent)
      → append_logs read_lines decode log_paths raw
        ≡ (all_lines log_paths >>= λ lines. ok (raw ++ decoded lines))
  unfolding append_logs append_events_from_log
  append_logs_lem [] raw = ap ok (sym (append-nil raw))
  append_logs_lem (log_path ∷ log_paths) raw = elim (Result-cases (read_lines log_path)) [
    | inr (e, r) ↦ rw r
    | inl (lines, r) ↦ rw r (
        append_logs_lem log_paths (append_decoded read_lines decode lines raw)
        ∙ gather_lines lines (all_lines log_paths))
  ]
    where
      gather_lines :
          (lines : List Text) (rest : Result E (List Text))
          → (rest >>= λ more. ok (append_decoded read_lines decode lines raw ++ decoded more))
            ≡ ((rest >>= λ more. ok (lines ++ more)) >>= λ all. ok (raw ++ decoded all))
      gather_lines lines (err e) = refl
      gather_lines lines (ok more) =
          ap ok (rw (append_decoded_lem lines raw, decoded-append lines more, append_assoc))

  joined_by :
      (log_paths : List Text) (f : List CommandEvent → List CommandEvent × JoinState)
      (g : List CommandEvent → List CommandEvent × JoinState)
      → ((raw : List CommandEvent) → f raw ≡ g raw)
      → (append_logs read_lines decode log_paths [] >>= λ raw. ok (f raw))
        ≡ (all_lines log_paths >>= λ lines. ok (g (decoded lines)))
  joined_by log_paths f g h = rw (append_logs_lem log_paths []) (pointwise (all_lines log_paths))
    where
      pointwise :
          (r : Result E (List Text))
          → ((r >>= λ lines. ok (decoded lines)) >>= λ raw. ok (f raw))
            ≡ (r >>= λ lines. ok (g (decoded lines)))
      pointwise (err e) = refl
      pointwise (ok lines) = ap ok (h (decoded lines))

  -- `collectFilteredEventsWithJoin`, behind its fast path, reads all logs, joins all records that can
  -- be decoded, and returns the newest rows that match up to the limit, all of them if the limit is
  -- not positive; the first log that cannot be read gives its error.
  pub collect_with_join-shown :
      (log_paths : List Text) (limit : ℤ) (lf : Filter) (join_state : JoinState)
      → collect_with_join read_lines decode log_paths limit lf join_state
        ≡ (all_lines log_paths >>= λ lines. ok (shown_joined limit lf join_state (decoded lines)))
  unfolding collect_with_join
  collect_with_join-shown log_paths limit lf join_state =
      joined_by log_paths _ (shown_joined limit lf join_state) (λ raw.
        ap (λ (rows : List CommandEvent). (rows, (merge_events_for_list raw join_state).1))
          (select-shown limit lf (merge_events_for_list raw join_state).0))
