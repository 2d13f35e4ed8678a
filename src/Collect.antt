-- ===== src/Collect.antt =====
-- internal/cli/event_collection.go: the rows of a list of logs, joined or as the start records alone
-- give them. Opening, decompressing and scanning a log is the parameter `read_lines`, and
-- `json.Unmarshal` is `decode`; a log whose reading fails gives its error. The fast path for
-- compressed logs is not modelled.
pub mod Newest
pub mod Streaming
pub mod Views
use prec.Base.{
  ℕ, zero, suc, ◌+◌, ◌-◌, ◌*◌, ◌/◌, ◌%◌, ◌^◌, ◌≤◌, ◌<◌, min, String, ◌≡◌, refl, sym, ap, ap₂, ◌∙◌,
  ◌≡⟨◌⟩◌, ◌∎, ◌≢◌, ◌↔◌, ◌⊎◌, inl, inr, Bool, true, false, not, ◌&&◌, ◌||◌, Option, none, some, List,
  [], ◌∷◌, ◌++◌, map, append-nil, append_assoc, arith, ltb, leb, ◌==◌, if◌then◌else◌, Bool-cases,
  Option-cases, ==_iff, ltb→lt, lt→ltb, leb→le, tests, length, get_elem?, get_or, set, take, drop,
  replicate, length-append, ℤ, pos, negsuc, pos_part, neg_part, ltb_ℤ, leb_ℤ, eqb_ℤ, ◌≤ℤ◌,
  eqb_ℤ_iff, Result, ok, err, ◌>>=◌, bind-eq-ok, map_result, Result-cases, ok_injective,
  bind_ok-eq-err,
}
use prec.Text.{Text, codes, contains}
use prec.Event.{CommandEvent}
use prec.Join.{JoinState, merged_event_without_command_end, merge_events_for_list}
use prec.Window.{EventWindow, new_event_window, add, events}
use prec.Query.Filter.{Filter, matches}

-- `commandEndRecordTypeMarker`
abbrev pub command_end_record_type_marker : Text
command_end_record_type_marker = codes "\"record_type\":\"proc_end\""

-- The loop of `collectFilteredEventsWithJoin` without a limit; `filtered` is what it has kept.
unfoldable pub keep_matching : Filter → List CommandEvent → List CommandEvent → List CommandEvent
keep_matching lf [] filtered = filtered
keep_matching lf (ev ∷ merged) filtered =
    keep_matching lf merged (if matches lf ev then filtered ++ (ev ∷ []) else filtered)

-- Its loop with a limit.
unfoldable pub add_matching : Filter → List CommandEvent → EventWindow → EventWindow
add_matching lf [] w = w
add_matching lf (ev ∷ merged) w = add_matching lf merged (if matches lf ev then add w ev else w)

-- `if keep && matchFilter(merged, lf) { filtered.Add(merged) }`
abbrev pub add_kept : Filter → EventWindow → Option CommandEvent → EventWindow
add_kept lf w none = w
add_kept lf w (some merged) = if matches lf merged then add w merged else w

module _ {E : Type 0} (read_lines : Text → Result E (List Text))
    (decode : Text → Option CommandEvent) where
  -- The loop of `appendEventsFromLog`.
  unfoldable pub append_decoded : List Text → List CommandEvent → List CommandEvent
  append_decoded [] dst = dst
  append_decoded (line ∷ lines) dst =
      append_decoded lines (elim (decode line) [ none ↦ dst | some ev ↦ dst ++ (ev ∷ []) ])

  -- `appendEventsFromLog`
  unfoldable pub append_events_from_log : Text → List CommandEvent → Result E (List CommandEvent)
  append_events_from_log log_path dst =
      read_lines log_path >>= λ lines. ok (append_decoded lines dst)

  unfoldable pub append_logs : List Text → List CommandEvent → Result E (List CommandEvent)
  append_logs [] raw = ok raw
  append_logs (log_path ∷ log_paths) raw =
      append_events_from_log log_path raw >>= λ more. append_logs log_paths more

  -- `collectFilteredEventsWithJoin` behind the fast path, with `includeCommandEnd`: the rows and the
  -- join state that is left.
  unfoldable pub collect_with_join :
      List Text → ℤ → Filter → JoinState → Result E (List CommandEvent × JoinState)
  collect_with_join log_paths limit lf join_state = append_logs log_paths [] >>= λ raw.
      let (merged, left) = merge_events_for_list raw join_state in
      ok (
        if leb_ℤ limit (pos 0)
            then keep_matching lf merged []
            else events (add_matching lf merged (new_event_window limit)),
        left,
      )

  -- The body of the scan loop of `collectFilteredEventsStreaming`.
  unfoldable pub stream_line : Filter → EventWindow → Text → EventWindow
  stream_line lf w line =
      if contains line command_end_record_type_marker then w else elim (decode line) [
        | none ↦ w
        | some ev ↦ add_kept lf w (merged_event_without_command_end ev)
      ]

  unfoldable pub stream_lines : Filter → List Text → EventWindow → EventWindow
  stream_lines lf [] w = w
  stream_lines lf (line ∷ lines) w = stream_lines lf lines (stream_line lf w line)

  unfoldable pub stream_logs : Filter → List Text → EventWindow → Result E EventWindow
  stream_logs lf [] w = ok w
  stream_logs lf (log_path ∷ log_paths) w =
      read_lines log_path >>= λ lines. stream_logs lf log_paths (stream_lines lf lines w)

  -- `collectFilteredEventsStreaming`
  unfoldable pub collect_streaming : List Text → ℤ → Filter → Result E (List CommandEvent)
  collect_streaming log_paths limit lf =
      stream_logs lf log_paths (new_event_window limit) >>= λ filtered. ok (events filtered)
