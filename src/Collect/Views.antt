-- ===== src/Collect/Views.antt =====
-- internal/cli/event_collection.go: the streaming collection against the joining one.
pub mod Steps
pub mod Same
pub mod Agrees
use prec.Base.{
  ℕ, zero, suc, ◌+◌, ◌-◌, ◌*◌, ◌/◌, ◌%◌, ◌^◌, ◌≤◌, ◌<◌, min, String, ◌≡◌, refl, sym, ap, ap₂, ◌∙◌,
  ◌≡⟨◌⟩◌, ◌∎, ◌≢◌, ◌↔◌, ◌⊎◌, inl, inr, Bool, true, false, not, ◌&&◌, ◌||◌, Option, none, some, List,
  [], ◌∷◌, ◌++◌, map, append-nil, append_assoc, arith, ltb, leb, ◌==◌, if◌then◌else◌, Bool-cases,
  Option-cases, ==_iff, ltb→lt, lt→ltb, leb→le, tests, length, get_elem?, get_or, set, take, drop,
  replicate, length-append, ℤ, pos, negsuc, pos_part, neg_part, ltb_ℤ, leb_ℤ, eqb_ℤ, ◌≤ℤ◌,
  eqb_ℤ_iff, Result, ok, err, ◌>>=◌, bind-eq-ok, map_result, Result-cases, ok_injective,
  bind_ok-eq-err,
}
use prec.Text.{Text, equal, contains}
use prec.Event.{CommandEvent}
use prec.Event.RecordType
use prec.Join.{JoinState, merged_event_without_command_end, merge_events_for_list}
use prec.Query.Field.{TimeParser}
use prec.Query.Clause.StartView.{with_end}
use prec.Query.Filter.{Filter, build, matches}
use prec.Query.Filter.StartView.{build-IgnoresEnd}
use prec.Window.Ring.{newest}
use prec.Collect.{command_end_record_type_marker, collect_with_join, collect_streaming}
use prec.Collect.Newest.{
  matching, kept, shown, shown_joined, all_lines, decoded, collect_with_join-shown,
}
use prec.Collect.Streaming.{start_rows, unmarked, collect_streaming-shown}
use Same.{SameStart, SameStarts, SameStarts-length, StartsDistinct}
use Agrees.{merge_events_for_list-start_rows}

SameStarts-drop :
    (n : ℕ) (rows starts : List CommandEvent)
    → SameStarts rows starts
    → SameStarts (drop n rows) (drop n starts)
SameStarts-drop zero rows starts h = h
SameStarts-drop (suc n) [] [] h = h
SameStarts-drop (suc n) (r ∷ rows) (s ∷ starts) h = SameStarts-drop n rows starts h.1
SameStarts-drop (suc n) [] (s ∷ starts) h = absurd h
SameStarts-drop (suc n) (r ∷ rows) [] h = absurd h

SameStarts-newest :
    (limit : ℕ) (rows starts : List CommandEvent)
    → SameStarts rows starts
    → SameStarts (newest limit rows) (newest limit starts)
SameStarts-newest limit rows starts h = elim (Bool-cases (limit == 0)) [
  | inl none_left ↦ rw none_left h
  | inr limited ↦
      rw (limited, SameStarts-length rows starts h)
        (SameStarts-drop (length starts - limit) rows starts h)
]

-- A filter that does not read the fields of an end record.
abbrev Indifferent : Filter → Type 0
Indifferent lf =
    (ev : CommandEvent) (t : Text) (d x : Option ℤ) → matches lf (with_end ev t d x) ≡ matches lf ev

SameStarts-matching :
    (lf : Filter)
    → Indifferent lf
    → (rows starts : List CommandEvent) → SameStarts rows starts
    → SameStarts (matching lf rows) (matching lf starts)
SameStarts-matching lf i [] [] h = h
SameStarts-matching lf i (r ∷ rows) (s ∷ starts) h =
    let (t, d, x, e) = h.0 in
    let alike : matches lf r ≡ matches lf s = ap (matches lf) e ∙ i s t d x in
    elim (Bool-cases (matches lf s)) [
      | inl hit ↦ rw (alike, hit) (h.0, SameStarts-matching lf i rows starts h.1)
      | inr miss ↦ rw (alike, miss) (SameStarts-matching lf i rows starts h.1)
    ]
SameStarts-matching lf i [] (s ∷ starts) h = absurd h
SameStarts-matching lf i (r ∷ rows) [] h = absurd h

-- A line with the end marker holds an end record, if it can be decoded at all.
abbrev pub MarkedEnds : (Text → Option CommandEvent) → List Text → Type 0
MarkedEnds decode [] = Unit {0}
MarkedEnds decode (line ∷ lines) =
    (contains line command_end_record_type_marker ≡ true
      → (ev : CommandEvent) → decode line ≡ some ev
      → ev.record_type ≡ RecordType.end)
    × MarkedEnds decode lines

end_row :
    (ev : CommandEvent)
    → ev.record_type ≡ RecordType.end
    → merged_event_without_command_end ev ≡ none
unfolding merged_event_without_command_end equal
end_row ev h = rw h

module _ {E : Type 0} (read_lines : Text → Result E (List Text))
    (decode : Text → Option CommandEvent) where
  unmarked_rows :
      (lines : List Text)
      → MarkedEnds decode lines
      → start_rows (decoded read_lines decode (unmarked lines))
        ≡ start_rows (decoded read_lines decode lines)
  unmarked_rows [] h = refl
  unmarked_rows (line ∷ lines) h =
      elim (Bool-cases (contains line command_end_record_type_marker)) [
        | inl marked ↦ elim (Option-cases (decode line)) [
          | inl e ↦ rw (marked, e) (unmarked_rows lines h.1)
          | inr (ev, e) ↦ rw (marked, e, end_row ev (h.0 marked ev e)) (unmarked_rows lines h.1)
        ]
        | inr open_line ↦ elim (Option-cases (decode line)) [
          | inl e ↦ rw (open_line, e) (unmarked_rows lines h.1)
          | inr (ev, e) ↦
              rw (open_line, e)
                (ap (kept (merged_event_without_command_end ev)) (unmarked_rows lines h.1))
        ]
      ]

  -- A query that does not ask for end records, on logs that can be read, in which start records have
  -- event ids, no two the same, and each line with the end marker holds an end record if it can be
  -- decoded: the streaming collection shows the rows that the joining one shows, in the same order,
  -- and they differ at most in end timestamp, duration and exit status.
  pub collect_streaming-collect_with_join :
      (clock : TimeParser) (specs : List Text) (lf : Filter)
      → build clock specs ≡ ok lf
      → lf.needs_finalized_command ≡ false
      → (log_paths lines : List Text) (limit : ℤ) → all_lines read_lines decode log_paths ≡ ok lines
      → MarkedEnds decode lines
      → StartsDistinct (decoded read_lines decode lines)
      → (joined starts : List CommandEvent) × (left : JoinState) × (collect_with_join read_lines
            decode log_paths limit lf []
          ≡ ok (joined, left))
        × (collect_streaming read_lines decode log_paths limit lf ≡ ok starts)
        × SameStarts joined starts
  collect_streaming-collect_with_join clock specs lf built needless log_paths lines limit read
        marked distinct =
      let raw : List CommandEvent = decoded read_lines decode lines in
      let indifferent : Indifferent lf = build-IgnoresEnd clock specs lf built needless in
      (
        shown limit lf (merge_events_for_list raw []).0,
        shown limit lf (start_rows raw),
        (merge_events_for_list raw []).1,
        collect_with_join-shown read_lines decode log_paths limit lf [] ∙ rw read,
        collect_streaming-shown read_lines decode log_paths limit lf
            ∙ rw (read, unmarked_rows lines marked),
        SameStarts-newest (pos_part limit) _ _ (
            SameStarts-matching lf indifferent _ _ (merge_events_for_list-start_rows raw distinct)),
      )
