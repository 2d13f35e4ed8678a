-- ===== src/Collector/Attempts.antt =====
-- internal/collector/collector_linux.go: what is remembered between the two samples of a system call.
use prec.Base.{ℕ, ◌||◌, Option, none, some, ◌==◌, if◌then◌else◌, pos, ltb_ℤ}
use prec.Text.{Text}
use prec.Collector.{ExecAttempt, FileOpenAttempt, IoAttempt, DupAttempt, Processes, Files}
use prec.Collector.Maps.{put, delete, delete_where}

-- `rememberExecAttempt`
unfoldable pub remember_exec_attempt : ℕ → ℕ → Text → ℕ → Processes → Processes
remember_exec_attempt tid tgid filename mono p = if tid == 0 then p else record p {
  pending_execve =
      put tid (record { tgid = tgid; filename = filename; timestamp = mono }) p.pending_execve;
}

-- `dropExecAttempt`
unfoldable pub drop_exec_attempt : ℕ → Processes → Processes
drop_exec_attempt tid p =
    if tid == 0 then p else record p { pending_execve = delete tid p.pending_execve }

-- `dropExecAttemptsByTGID`
unfoldable pub drop_exec_attempts_by_tgid : ℕ → Processes → Processes
drop_exec_attempts_by_tgid tgid p =
    if tgid == 0
    then p
    else record p { pending_execve = delete_where (λ a. a.tgid == tgid) p.pending_execve }

-- `takeExecAttempt`
unfoldable pub take_exec_attempt : ℕ → Processes → Option ExecAttempt × Processes
take_exec_attempt tid p = elim (p.pending_execve tid) [
  | none ↦ (none, p)
  | some a ↦ (some a, record p { pending_execve = delete tid p.pending_execve })
]

-- `rememberFileOpenAttempt`
unfoldable pub remember_file_open_attempt : ℕ → FileOpenAttempt → Files → Files
remember_file_open_attempt tid attempt f =
    if tid == 0 then f else record f { pending_open = put tid attempt f.pending_open }

-- `takeFileOpenAttempt`
unfoldable pub take_file_open_attempt : ℕ → Files → Option FileOpenAttempt × Files
take_file_open_attempt tid f = elim (f.pending_open tid) [
  | none ↦ (none, f)
  | some a ↦ (some a, record f { pending_open = delete tid f.pending_open })
]

-- `dropFileOpenAttempt`
unfoldable pub drop_file_open_attempt : ℕ → Files → Files
drop_file_open_attempt tid f =
    if tid == 0 then f else record f { pending_open = delete tid f.pending_open }

-- `rememberDupAttempt`
unfoldable pub remember_dup_attempt : ℕ → DupAttempt → Files → Files
remember_dup_attempt tid attempt f =
    if tid == 0 || ltb_ℤ attempt.oldfd (pos 0) || ltb_ℤ attempt.newfd (pos 0)
    then f
    else record f { pending_dup = put tid attempt f.pending_dup }

-- `takeDupAttempt`
unfoldable pub take_dup_attempt : ℕ → Files → Option DupAttempt × Files
take_dup_attempt tid f = elim (f.pending_dup tid) [
  | none ↦ (none, f)
  | some a ↦ (some a, record f { pending_dup = delete tid f.pending_dup })
]

-- `dropDupAttempt`
unfoldable pub drop_dup_attempt : ℕ → Files → Files
drop_dup_attempt tid f = if tid == 0 then f else record f { pending_dup = delete tid f.pending_dup }

-- `rememberIOAttempt` on `pendingWrite`, the one pool there is.
unfoldable pub remember_io_attempt : ℕ → IoAttempt → Files → Files
remember_io_attempt tid attempt f =
    if tid == 0 || ltb_ℤ attempt.fd (pos 0)
    then f
    else record f { pending_write = put tid attempt f.pending_write }

-- `takeIOAttempt` on `pendingWrite`
unfoldable pub take_io_attempt : ℕ → Files → Option IoAttempt × Files
take_io_attempt tid f = elim (f.pending_write tid) [
  | none ↦ (none, f)
  | some a ↦ (some a, record f { pending_write = delete tid f.pending_write })
]

-- `dropIOAttempt` on `pendingWrite`
unfoldable pub drop_io_attempt : ℕ → Files → Files
drop_io_attempt tid f =
    if tid == 0 then f else record f { pending_write = delete tid f.pending_write }

-- `dropFileStateByTGID`
unfoldable pub drop_file_state_by_tgid : ℕ → Files → Files
drop_file_state_by_tgid tgid f = if tgid == 0 then f else record f {
  pending_open = delete_where (λ a. a.tgid == tgid) f.pending_open;
  pending_write = delete_where (λ a. a.tgid == tgid) f.pending_write;
  pending_dup = delete_where (λ a. a.tgid == tgid) f.pending_dup;
  open_files = λ t fd. if t == tgid then none else f.open_files t fd;
  recent_file_saves = λ t path. if t == tgid then none else f.recent_file_saves t path;
}
