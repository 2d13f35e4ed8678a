-- ===== src/Event/RecordType.antt =====
-- internal/events/source.go: the values of `record_type`.
use prec.Text.{Text, codes}

abbrev pub start : Text
start = codes "proc_start"

abbrev pub end : Text
end = codes "proc_end"

abbrev pub command : Text
command = codes "proc_command"

abbrev pub fail : Text
fail = codes "proc_fail"

abbrev pub loss : Text
loss = codes "proc_loss"

abbrev pub file_open : Text
file_open = codes "file_open"

abbrev pub file_save : Text
file_save = codes "file_save"
