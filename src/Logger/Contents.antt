-- ===== src/Logger/Contents.antt =====
-- internal/logger/jsonl.go: what the files hold after calls of the writer.
use prec.Base.{
  ℕ, ◌≡◌, refl, sym, ap, ◌∙◌, inl, inr, Bool, true, false, Option, none, some, List, [], ◌∷◌, ◌++◌,
  append-nil, append_assoc, arith, ◌==◌, if◌then◌else◌, Bool-cases, Option-cases, take, Result, ok,
  Result-cases, ok_injective,
}
use prec.Text.{Text}
use prec.Event.{CommandEvent}
use prec.Logger.{
  Compress, zstd, JsonlWriter, Answers, LogError, synced_lately, sync_if_due, frame, append_to,
  write_bytes, write_open, write_to, write_event, reopen, close,
}

pub data Call : Type 0 where
  writes : CommandEvent → Call
  reopens closes : Call

abbrev pub call : Answers → Call → JsonlWriter → Result LogError (Unit {0}) × JsonlWriter
call a (writes ev) w = write_event a ev w
call a reopens w = reopen a w
call a closes w = close a w

-- Calls one after the other, whatever their results.
abbrev pub calls : List (Answers × Call) → JsonlWriter → JsonlWriter
calls [] w = w
calls ((a, c) ∷ rest) w = calls rest (call a c w).1

-- The part of a frame that reaches the file.
abbrev reaching : Option ℕ → Text → Text
reaching none bytes = bytes
reaching (some n) bytes = take n bytes

abbrev pub reached : Compress → Answers → CommandEvent → Text
reached mode a ev = elim (frame mode a ev) [ none ↦ [] | some bytes ↦ reaching a.short_write bytes ]

-- Whether the encoder of a new file cannot be made.
abbrev no_encoder : Compress → Answers → Bool
no_encoder zstd a = a.encoder_fails
no_encoder _ a = false

-- The file that is open after a call.
abbrev next_file : Compress → Answers → Call → Option ℕ → Option ℕ
next_file mode a c none = none
next_file mode a (writes ev) (some file) = some file
next_file mode a closes (some file) = none
next_file mode a reopens (some file) = elim a.opened [
  | none ↦ some file
  | some next ↦ if no_encoder mode a then some file else some next
]

-- What a call adds to file `k`.
abbrev added_by : Compress → Answers → Call → Option ℕ → ℕ → Text
added_by mode a (writes ev) (some file) k = if k == file then reached mode a ev else []
added_by mode a _ _ k = []

-- What calls add to file `k`: the events that are written while it is the open one, in their order.
abbrev pub added_to : Compress → ℕ → List (Answers × Call) → Option ℕ → Text
added_to mode k [] file = []
added_to mode k ((a, c) ∷ rest) file =
    added_by mode a c file k ++ added_to mode k rest (next_file mode a c file)

-- What one call leaves.
pub record Steps (a : Answers) (c : Call) (w w' : JsonlWriter) : Type 0 where
  pub same_mode : w'.compress ≡ w.compress
  pub next : w'.file ≡ next_file w.compress a c w.file
  pub more : (k : ℕ) → w'.contents k ≡ w.contents k ++ added_by w.compress a c w.file k

pub sync_if_due-keeps :
    (a : Answers) (w w' : JsonlWriter)
    → sync_if_due a w ≡ ok w'
    → (w'.compress ≡ w.compress) × (w'.file ≡ w.file) × (w'.contents ≡ w.contents)
unfolding sync_if_due
sync_if_due-keeps a w w' e = elim (Bool-cases (synced_lately a.now w.last_sync_at)) [
  | inl s ↦ rw (sym (ok_injective {E = LogError} (rw s at e))) (refl, refl, refl)
  | inr s ↦ elim (Bool-cases a.sync_fails) [
    | inl f ↦ cc (rw (s, f) at e)
    | inr f ↦ rw (sym (ok_injective {E = LogError} (rw (s, f) at e))) (refl, refl, refl)
  ]
]

written-Steps :
    (a : Answers) (ev : CommandEvent) (file : ℕ) (bytes : Text) (w w' : JsonlWriter)
    → w.file ≡ some file
    → frame w.compress a ev ≡ some bytes
    → w'.compress ≡ w.compress
    → w'.file ≡ some file
    → w'.contents ≡ append_to file (reaching a.short_write bytes) w.contents
    → Steps a (writes ev) w w'
written-Steps a ev file bytes w w' open_file made mode same added = record {
  same_mode = mode;
  next = rw open_file same;
  more = λ k. ap (λ (c : ℕ → Text). c k) added ∙ elim (Bool-cases (k == file)) [
    | inl e ↦ rw (open_file, e, reached, made) refl
    | inr e ↦ rw (open_file, e) (sym (append-nil (w.contents k)))
  ];
}

unwritten-Steps :
    (a : Answers) (ev : CommandEvent) (file : ℕ) (w : JsonlWriter)
    → w.file ≡ some file
    → frame w.compress a ev ≡ none
    → Steps a (writes ev) w w
unwritten-Steps a ev file w open_file made = record {
  same_mode = refl;
  next = rw open_file refl;
  more = λ k. elim (Bool-cases (k == file)) [
    | inl e ↦ rw (open_file, e, reached, made) (sym (append-nil (w.contents k)))
    | inr e ↦ rw (open_file, e) (sym (append-nil (w.contents k)))
  ];
}

write_open-Steps :
    (a : Answers) (ev : CommandEvent) (file : ℕ) (w : JsonlWriter)
    → w.file ≡ some file
    → Steps a (writes ev) w (write_open a file ev w).1
unfolding write_open
write_open-Steps a ev file w open_file = elim (Option-cases (frame w.compress a ev)) [
  | inl e ↦
      let out : (write_open a file ev w).1 ≡ w = rw (write_open, e) refl in
      rw out (unwritten-Steps a ev file w open_file e)
  | inr (bytes, e) ↦ elim (Option-cases a.short_write) [
    | inr (n, f) ↦
        let w' : JsonlWriter = record w { contents = append_to file (take n bytes) w.contents } in
        let out : (write_open a file ev w).1 ≡ w' = rw (write_open, e, f) refl in
        let held : w'.contents ≡ append_to file (reaching a.short_write bytes) w.contents =
          rw f refl in
        rw out (written-Steps a ev file bytes w w' open_file e refl open_file held)
    | inl f ↦
        let w' : JsonlWriter = record w { contents = append_to file bytes w.contents } in
        let wrote : write_bytes a file bytes w ≡ (true, w') = rw f refl in
        let whole : w'.contents ≡ append_to file (reaching a.short_write bytes) w.contents =
          rw f refl in
        elim (Result-cases (sync_if_due a w')) [
          | inr (x, g) ↦
              let out : (write_open a file ev w).1 ≡ w' =
                rw (write_open, e, wrote, g, wrote) refl in
              rw out (written-Steps a ev file bytes w w' open_file e refl open_file whole)
          | inl (v, g) ↦
              let (mode, same, held) = sync_if_due-keeps a w' v g in
              let out : (write_open a file ev w).1 ≡ v = rw (write_open, e, wrote, g) refl in
              rw out (
                written-Steps a ev file bytes w v open_file e mode (same ∙ open_file)
                  (held ∙ whole))
        ]
  ]
]

write_event-Steps :
    (a : Answers) (ev : CommandEvent) (w : JsonlWriter)
    → Steps a (writes ev) w (write_event a ev w).1
unfolding write_event
write_event-Steps a ev w = elim (Option-cases w.file) [
  | inl e ↦
      let out : (write_event a ev w).1 ≡ w = ap (λ (f : Option ℕ). (write_to a ev w f).1) e in
      rw out (record {
        same_mode = refl;
        next = rw e refl;
        more = λ k. rw e (sym (append-nil (w.contents k)));
      })
  | inr (file, e) ↦
      let out : (write_event a ev w).1 ≡ (write_open a file ev w).1 =
        ap (λ (f : Option ℕ). (write_to a ev w f).1) e in
      rw out (write_open-Steps a ev file w e)
]

reopen-Steps : (a : Answers) (w : JsonlWriter) → Steps a reopens w (reopen a w).1
unfolding reopen
reopen-Steps a w =
    let same : (reopen a w).1.contents ≡ w.contents = ground arith in
    record {
      same_mode = ground arith;
      next = ground arith;
      more = λ k. ap (λ (c : ℕ → Text). c k) same ∙ sym (append-nil (w.contents k));
    }

close-Steps : (a : Answers) (w : JsonlWriter) → Steps a closes w (close a w).1
unfolding close
close-Steps a w =
    let same : (close a w).1.contents ≡ w.contents = ground arith in
    record {
      same_mode = ground arith;
      next = ground arith;
      more = λ k. ap (λ (c : ℕ → Text). c k) same ∙ sym (append-nil (w.contents k));
    }

call-Steps : (a : Answers) (c : Call) (w : JsonlWriter) → Steps a c w (call a c w).1
call-Steps a (writes ev) w = write_event-Steps a ev w
call-Steps a reopens w = reopen-Steps a w
call-Steps a closes w = close-Steps a w

-- After any calls, whatever the system and the encoders answer: each file holds what it held, and behind
-- that, in their order, the frames of the events that were written while it was the open file, each as
-- far as it has reached the file; nothing is added once the writer is closed.
pub calls-added_to :
    (steps : List (Answers × Call)) (w : JsonlWriter) (k : ℕ)
    → (calls steps w).contents k ≡ w.contents k ++ added_to w.compress k steps w.file
calls-added_to [] w k = sym (append-nil (w.contents k))
calls-added_to ((a, c) ∷ rest) w k =
    let s = call-Steps a c w in
    let w' = (call a c w).1 in
    calls-added_to rest w' k
    ∙ (rw (s.more k, s.same_mode, s.next)
        (append_assoc (w.contents k) (added_by w.compress a c w.file k)
          (added_to w.compress k rest (next_file w.compress a c w.file))))
