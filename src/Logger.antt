-- ===== src/Logger.antt =====
-- internal/logger/jsonl.go: the writer of the log. A file is known by a number, and the disk is what each
-- file holds; the mutex is not modelled, since each call holds it from start to end.
pub mod Contents
pub mod Written
use prec.Base.{
  ℕ, zero, suc, ◌+◌, ◌-◌, ◌*◌, ◌/◌, ◌%◌, ◌^◌, ◌≤◌, ◌<◌, min, String, ◌≡◌, refl, sym, ap, ap₂, ◌∙◌,
  ◌≡⟨◌⟩◌, ◌∎, ◌≢◌, ◌↔◌, ◌⊎◌, inl, inr, Bool, true, false, not, ◌&&◌, ◌||◌, Option, none, some, List,
  [], ◌∷◌, ◌++◌, map, append-nil, append_assoc, arith, ltb, leb, ◌==◌, if◌then◌else◌, Bool-cases,
  Option-cases, ==_iff, ltb→lt, lt→ltb, leb→le, tests, length, get_elem?, get_or, set, take, drop,
  replicate, length-append, ℤ, pos, negsuc, pos_part, neg_part, ltb_ℤ, leb_ℤ, eqb_ℤ, ◌≤ℤ◌,
  eqb_ℤ_iff, Result, ok, err, ◌>>=◌, bind-eq-ok, map_result, Result-cases, ok_injective,
  bind_ok-eq-err,
}
use prec.Text.{Text, codes, is_empty, equal, to_lower, trim_space}
use prec.Event.{CommandEvent}

-- The modes that `NewJSONLWriter` lets through.
pub data Compress : Type 0 where
  no_compress gzip zstd : Compress

-- `JSONLWriter`, with the disk; `file` is `none` once `f` is nil, and `last_sync_at` for the zero time.
pub record JsonlWriter : Type 0 where
  pub file : Option ℕ
  pub compress : Compress
  pub last_sync_at : Option ℤ
  pub contents : ℕ → Text

-- What the system and the encoders answer during one call: `json.Marshal` with its line end; the gzip
-- frame of a line; `EncodeAll`; how much of what is written reaches the file if that fails; whether
-- `Sync`, `Close` and the zstd encoder's `Close` fail; the file that `openLogFile` opens, and whether the
-- encoder that belongs to it can be made; and the time.
pub record Answers : Type 0 where
  pub marshal_line : CommandEvent → Option Text
  pub gzip_frame : Text → Option Text
  pub zstd_frame : Text → Text
  pub short_write : Option ℕ
  pub sync_fails : Bool
  pub close_fails : Bool
  pub encoder_close_fails : Bool
  pub opened : Option ℕ
  pub encoder_fails : Bool
  pub now : ℤ

pub data LogError : Type 0 where
  logger_closed open_failed encoder_failed encode_failed write_failed sync_failed close_failed :
      LogError
  unsupported_mode : Text → LogError

-- `logSyncInterval`, in nanoseconds.
abbrev log_sync_interval : ℕ
log_sync_interval = 1000000000

-- `now.Sub(lastSyncAt) < logSyncInterval`, and false for the zero time.
abbrev pub synced_lately : ℤ → Option ℤ → Bool
synced_lately now none = false
synced_lately now (some last) =
    ltb (pos_part now + neg_part last) (pos_part last + neg_part now + log_sync_interval)

-- The writer of `NewJSONLWriter` on an open file.
abbrev opened_writer : ℕ → Compress → (ℕ → Text) → JsonlWriter
opened_writer file mode contents = record {
  file = some file;
  compress = mode;
  last_sync_at = none;
  contents = contents;
}

-- `NewJSONLWriter`; `lower_rune` is `unicode.ToLower` beyond ASCII.
unfoldable new_jsonl_writer : (ℕ → ℕ) → Answers → Text → (ℕ → Text) → Result LogError JsonlWriter
unfolding equal to_lower trim_space
new_jsonl_writer lower_rune a compress contents = elim a.opened [
  | none ↦ err open_failed
  | some file ↦
      let lowered = to_lower lower_rune (trim_space compress) in
      let mode = if is_empty lowered then codes "no" else lowered in
      if equal mode (codes "no")
      then ok (opened_writer file no_compress contents)
      else if equal mode (codes "gz")
      then if a.encoder_fails then err encoder_failed else ok (opened_writer file gzip contents)
      else if equal mode (codes "zstd")
      then if a.encoder_fails then err encoder_failed else ok (opened_writer file zstd contents)
      else err (unsupported_mode mode)
]

-- `syncIfDue`
unfoldable pub sync_if_due : Answers → JsonlWriter → Result LogError JsonlWriter
sync_if_due a w =
    if synced_lately a.now w.last_sync_at
    then ok w
    else if a.sync_fails
    then err sync_failed
    else ok (record w { last_sync_at = some a.now })

-- What is appended for an event: `Encode`, or the frame of `writeGzipEvent` or `writeZstdEvent`.
unfoldable pub frame : Compress → Answers → CommandEvent → Option Text
frame no_compress a ev = a.marshal_line ev
frame gzip a ev = elim (a.marshal_line ev) [ none ↦ none | some line ↦ a.gzip_frame line ]
frame zstd a ev = elim (a.marshal_line ev) [ none ↦ none | some line ↦ some (a.zstd_frame line) ]

-- Text behind what a file holds.
abbrev pub append_to : ℕ → Text → (ℕ → Text) → ℕ → Text
append_to file text contents k = if k == file then contents k ++ text else contents k

-- `f.Write`: an error, or all of it; the writer, with what has reached the file, is there in both cases.
abbrev pub write_bytes : Answers → ℕ → Text → JsonlWriter → Bool × JsonlWriter
write_bytes a file bytes w = elim a.short_write [
  | none ↦ (true, record w { contents = append_to file bytes w.contents })
  | some n ↦ (false, record w { contents = append_to file (take n bytes) w.contents })
]

-- `WriteEvent` on an open file; its result, and the writer that it leaves.
unfoldable pub write_open :
    Answers → ℕ → CommandEvent → JsonlWriter → Result LogError (Unit {0}) × JsonlWriter
unfolding frame sync_if_due
write_open a file ev w = elim (frame w.compress a ev) [
  | none ↦ (err encode_failed, w)
  | some bytes ↦
      let (written, w') = write_bytes a file bytes w in
      if not written
      then (err write_failed, w')
      else elim (sync_if_due a w') [ err e ↦ (err e, w') | ok w'' ↦ (ok tt, w'') ]
]

abbrev pub write_to :
    Answers → CommandEvent → JsonlWriter → Option ℕ → Result LogError (Unit {0}) × JsonlWriter
write_to a ev w none = (err logger_closed, w)
write_to a ev w (some file) = write_open a file ev w

-- `WriteEvent`
unfoldable pub write_event :
    Answers → CommandEvent → JsonlWriter → Result LogError (Unit {0}) × JsonlWriter
unfolding write_open
write_event a ev w = write_to a ev w w.file

-- The first of the errors of closing a file.
abbrev close_result : Compress → Answers → Result LogError (Unit {0})
close_result mode a =
    if (elim mode [ zstd ↦ a.encoder_close_fails | gzip ↦ false | no_compress ↦ false ])
    then err close_failed
    else if a.sync_fails
    then err sync_failed
    else if a.close_fails
    then err close_failed
    else ok tt

-- `Reopen`, with `openOutputs`
unfoldable pub reopen : Answers → JsonlWriter → Result LogError (Unit {0}) × JsonlWriter
reopen a w = elim w.file [
  | none ↦ (err logger_closed, w)
  | some file ↦ elim a.opened [
    | none ↦ (err open_failed, w)
    | some next ↦
        if (elim w.compress [ zstd ↦ a.encoder_fails | gzip ↦ false | no_compress ↦ false ])
        then (err encoder_failed, w)
        else (close_result w.compress a, record w { file = some next; last_sync_at = none })
  ]
]

-- `Close`
unfoldable pub close : Answers → JsonlWriter → Result LogError (Unit {0}) × JsonlWriter
close a w = elim w.file [
  | none ↦ (ok tt, w)
  | some file ↦ (close_result w.compress a, record w { file = none })
]
