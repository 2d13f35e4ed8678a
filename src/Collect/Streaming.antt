-- ===== src/Collect/Streaming.antt =====
-- internal/cli/event_collection.go: the collection that reads start records alone.
use prec.Base.{
  ◌≡◌, refl, sym, ap, ◌∙◌, inl, inr, Option, none, some, List, [], ◌∷◌, ◌++◌, if◌then◌else◌,
  Bool-cases, Option-cases, ℤ, Result, ok, err, ◌>>=◌, Result-cases,
}
use prec.Text.{Text, contains}
use prec.Event.{CommandEvent}
use prec.Join.{merged_event_without_command_end}
use prec.Window.{EventWindow, new_event_window, add_all, events}
use prec.Window.Newest.{events-newest}
use prec.Query.Filter.{Filter, matches}
use prec.Collect.{
  command_end_record_type_marker, add_kept, stream_line, stream_lines, stream_logs,
  collect_streaming,
}
use prec.Collect.Newest.{matching, kept, shown, all_lines, decoded}

-- The rows that start records and other records give alone.
abbrev pub start_rows : List CommandEvent → List CommandEvent
start_rows [] = []
start_rows (ev ∷ raw) = kept (merged_event_without_command_end ev) (start_rows raw)

-- The lines that are not skipped unread.
abbrev pub unmarked : List Text → List Text
unmarked [] = []
unmarked (line ∷ lines) =
    if contains line command_end_record_type_marker then unmarked lines else line ∷ unmarked lines

add_kept-add_all :
    (lf : Filter) (w : EventWindow) (row : Option CommandEvent) (rows : List CommandEvent)
    → add_all w (matching lf (kept row rows)) ≡ add_all (add_kept lf w row) (matching lf rows)
unfolding add_all
add_kept-add_all lf w none rows = refl
add_kept-add_all lf w (some ev) rows = elim (Bool-cases (matches lf ev)) [
  | inl hit ↦ rw hit
  | inr miss ↦ rw miss
]

module _ {E : Type 0} (read_lines : Text → Result E (List Text))
    (decode : Text → Option CommandEvent) where
  stream_lines-add_all :
      (lf : Filter) (lines : List Text) (w : EventWindow)
      → stream_lines read_lines decode lf lines w
        ≡ add_all w (matching lf (start_rows (decoded read_lines decode (unmarked lines))))
  unfolding stream_lines stream_line add_all
  stream_lines-add_all lf [] w = refl
  stream_lines-add_all lf (line ∷ lines) w =
      elim (Bool-cases (contains line command_end_record_type_marker)) [
        | inl marked ↦ rw marked (stream_lines-add_all lf lines w)
        | inr open_line ↦ rw open_line (elim (Option-cases (decode line)) [
          | inl e ↦ rw e (stream_lines-add_all lf lines w)
          | inr (ev, e) ↦ rw e (
              stream_lines-add_all lf lines (add_kept lf w (merged_event_without_command_end ev))
              ∙ sym (
                  add_kept-add_all lf w (merged_event_without_command_end ev)
                    (start_rows (decoded read_lines decode (unmarked lines)))))
        ])
      ]

  stream_lines-append :
      (lf : Filter) (lines more : List Text) (w : EventWindow)
      → stream_lines read_lines decode lf (lines ++ more) w
        ≡ stream_lines read_lines decode lf more (stream_lines read_lines decode lf lines w)
  unfolding stream_lines
  stream_lines-append lf [] more w = refl
  stream_lines-append lf (line ∷ lines) more w =
      stream_lines-append lf lines more (stream_line read_lines decode lf w line)

  stream_logs_lem :
      (lf : Filter) (log_paths : List Text) (w : EventWindow)
      → stream_logs read_lines decode lf log_paths w ≡ (
          all_lines read_lines decode log_paths >>= λ lines.
          ok (stream_lines read_lines decode lf lines w))
  unfolding stream_logs
  stream_logs_lem lf [] w = unfold stream_lines in refl
  stream_logs_lem lf (log_path ∷ log_paths) w = elim (Result-cases (read_lines log_path)) [
    | inr (e, r) ↦ rw r
    | inl (lines, r) ↦ rw r (
        stream_logs_lem lf log_paths (stream_lines read_lines decode lf lines w)
        ∙ after lines (all_lines read_lines decode log_paths))
  ]
    where
      after :
          (lines : List Text) (rest : Result E (List Text))
          → (rest >>= λ more.
              ok (
                stream_lines read_lines decode lf more (stream_lines read_lines decode lf lines w)))
            ≡ ((rest >>= λ more. ok (lines ++ more)) >>= λ all.
                ok (stream_lines read_lines decode lf all w))
      after lines (err e) = refl
      after lines (ok more) = ap ok (sym (stream_lines-append lf lines more w))

  -- `collectFilteredEventsStreaming` reads all logs and returns, up to the limit, the newest rows that
  -- match of those that the records in the lines without the end marker give one by one; the first
  -- log that cannot be read gives its error.
  pub collect_streaming-shown :
      (log_paths : List Text) (limit : ℤ) (lf : Filter)
      → collect_streaming read_lines decode log_paths limit lf ≡ (
          all_lines read_lines decode log_paths >>= λ lines.
          ok (shown limit lf (start_rows (decoded read_lines decode (unmarked lines)))))
  unfolding collect_streaming
  collect_streaming-shown log_paths limit lf =
      rw (stream_logs_lem lf log_paths (new_event_window limit))
        (newest_of (all_lines read_lines decode log_paths))
    where
      newest_of :
          (r : Result E (List Text))
          → ((r >>= λ lines. ok (stream_lines read_lines decode lf lines (new_event_window limit)))
              >>= λ w. ok (events w))
            ≡ (r >>= λ lines.
                ok (shown limit lf (start_rows (decoded read_lines decode (unmarked lines)))))
      newest_of (err e) = refl
      newest_of (ok lines) = ap ok (
          ap events (stream_lines-add_all lf lines (new_event_window limit))
          ∙ events-newest limit
              (matching lf (start_rows (decoded read_lines decode (unmarked lines)))))
