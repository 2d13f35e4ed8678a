-- ===== src/Tests/Writers.antt =====
-- internal/logger/jsonl.go on a few calls.
use prec.Base.{◌≡◌, ◌++◌, refl, false, none, some, List, [], ◌∷◌, pos}
use prec.Text.{codes}
use prec.Event.{empty_event}
use prec.Logger.{no_compress, JsonlWriter, Answers, frame}
use prec.Logger.Contents.{Call, writes, reopens, closes, calls, added_to, calls-added_to}

-- A system that answers to everything, and opens file 2.
abbrev answers : Answers
answers = record {
  marshal_line = λ ev. some (codes "{}");
  gzip_frame = λ line. some line;
  zstd_frame = λ line. line;
  short_write = none;
  sync_fails = false;
  close_fails = false;
  encoder_close_fails = false;
  opened = some 2;
  encoder_fails = false;
  now = pos 5;
}

abbrev writer : JsonlWriter
writer = record {
  file = some 1;
  compress = no_compress;
  last_sync_at = none;
  contents = λ k. codes "#";
}

-- A write of which one code point reaches the file, a rotation, a write, and one behind the end.
abbrev steps : List (Answers × Call)
steps =
    (record answers { short_write = some 1 }, writes empty_event)
    ∷ (answers, reopens)
    ∷ (answers, writes empty_event)
    ∷ (answers, closes)
    ∷ (answers, writes empty_event)
    ∷ []

calls-added_to_example :
    (calls steps writer).contents 2 ≡ codes "#" ++ added_to no_compress 2 steps (some 1)
calls-added_to_example = calls-added_to steps writer 2

added_lines : added_to no_compress 2 steps (some 1) ≡ codes "{}"
unfolding frame
added_lines = refl
