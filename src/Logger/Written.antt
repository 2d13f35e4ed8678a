-- ===== src/Logger/Written.antt =====
-- internal/logger/jsonl.go: a call of `WriteEvent` that succeeds.
use prec.Base.{ℕ, ◌≡◌, true, some}
use prec.Text.{Text}
use prec.Event.{CommandEvent}
use prec.Logger.{JsonlWriter, Answers, synced_lately, frame, append_to}

-- What a call of `WriteEvent` that succeeds has done.
pub record IsWritten (a : Answers) (ev : CommandEvent) (w w' : JsonlWriter) : Type 0 where
  pub file : ℕ
  pub bytes : Text
  pub is_open : w.file ≡ some file
  pub made : frame w.compress a ev ≡ some bytes
  pub held : w'.contents ≡ append_to file bytes w.contents
  pub synced : synced_lately a.now w'.last_sync_at ≡ true
