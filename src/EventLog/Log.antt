-- ===== src/EventLog/Log.antt =====
-- eventlog/log.go: a source of the event log.
use winsvc.Prelude.{ℕ, not, none, [], ◌∷◌, is_empty, if◌then◌else◌}
use winsvc.Unicode.{GoString, codes}
use winsvc.Syscall
use winsvc.Winapi.Constants
use winsvc.Winapi.Procs
use winsvc.Winapi.Types.{StringPtr}
use winsvc.Winapi.System.{M, return, fail, message, ◌>>=◌}

abbrev pub info_level : ℕ
info_level = Constants.eventlog_information_type

abbrev pub warning_level : ℕ
warning_level = Constants.eventlog_warning_type

abbrev pub error_level : ℕ
error_level = Constants.eventlog_error_type

pub record Log : Type 0 where
  pub handle : ℕ

abbrev host_ptr : GoString → M StringPtr
host_ptr host = if not (is_empty host) then Syscall.string_to_utf16_ptr host else return none

-- The rest of OpenRemote, for a source that is not empty.
abbrev register : (host source : GoString) → M Log
register host source = do
  s ← host_ptr host
  p ← Syscall.string_to_utf16_ptr source
  h ← Procs.register_event_source s p
  return (record { handle = h })

unfoldable pub open_remote : (host source : GoString) → M Log
unfolding Syscall.string_to_utf16_ptr Procs.register_event_source
open_remote host source =
    if is_empty source
    then fail (message (codes "Specify event log source"))
    else register host source

unfoldable pub open_log : (source : GoString) → M Log
unfolding open_remote
open_log source = open_remote [] source

unfoldable pub close : Log → M (Unit {0})
unfolding Procs.deregister_event_source
close l = Procs.deregister_event_source l.handle

unfoldable pub report : Log → (etype eid : ℕ) → (msg : GoString) → M (Unit {0})
unfolding Syscall.string_to_utf16_ptr Procs.report_event
report l etype eid msg = do
  p ← Syscall.string_to_utf16_ptr msg
  Procs.report_event (record {
    log = l.handle;
    etype = etype;
    category = 0;
    event_id = eid;
    usr_sid = 0;
    num_strings = 1;
    data_size = 0;
    strings = p ∷ [];
    raw_data = 0;
  })

unfoldable pub info : Log → (eid : ℕ) → (msg : GoString) → M (Unit {0})
unfolding report
info l eid msg = report l Constants.eventlog_information_type eid msg

unfoldable pub warning : Log → (eid : ℕ) → (msg : GoString) → M (Unit {0})
unfolding report
warning l eid msg = report l Constants.eventlog_warning_type eid msg

unfoldable pub error : Log → (eid : ℕ) → (msg : GoString) → M (Unit {0})
unfolding report
error l eid msg = report l Constants.eventlog_error_type eid msg
