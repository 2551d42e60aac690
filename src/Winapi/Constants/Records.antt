-- ===== src/Winapi/Constants/Records.antt =====
-- winapi/eventlog.go and winapi/registry.go: the constants that only callers may use.
use winsvc.Prelude.{ℕ}

abbrev pub eventlog_audit_success : ℕ
eventlog_audit_success = 8

abbrev pub eventlog_audit_failure : ℕ
eventlog_audit_failure = 16

abbrev pub eventlog_success : ℕ
eventlog_success = 0

abbrev pub reg_created_new_key : ℕ
reg_created_new_key = 1
