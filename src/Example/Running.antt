-- ===== src/Example/Running.antt =====
-- example/service.go: runService, over both logs. What an errno reads like is an argument, and so
-- is what the threads of svc need beside the name; on the console the exit code of Execute is one.
pub mod Logged
use winsvc.Prelude.{ℕ, Bool, ◌++◌, if◌then◌else◌}
use winsvc.Unicode.{GoString, codes}
use winsvc.Winapi.System.{Error, errno, message, wrapped, Attempt, returned, failed, Outcome}
use winsvc.Debug.Console
use winsvc.Debug.Log.{
  Program, return, on_windows, on_console, attempt, ignore, deferred, ◌>>=◌, Log, console_log,
  event_log,
}
use winsvc.Debug.Pump.{exit_result}
use winsvc.EventLog.Log as EventSource
use winsvc.Svc.Run.{Callback}
use winsvc.Svc.Run
use winsvc.Svc.Types.{ExitCode}

-- What Windows calls an errno.
abbrev pub ErrnoText : Type 0
ErrnoText = ℕ → GoString

-- The %v of an error.
unfoldable pub error_text : ErrnoText → Error → GoString
error_text texts (errno n) = texts n
error_text texts (message m) = m
error_text texts (wrapped m e) = m ++ error_text texts e

abbrev pub starting : GoString → GoString
starting name = codes "starting " ++ (name ++ codes " service")

abbrev pub stopped_text : GoString → GoString
stopped_text name = name ++ codes " service stopped"

abbrev pub failed_text : (name text : GoString) → GoString
failed_text name text = name ++ (codes " service failed: " ++ text)

-- What stands behind the run.
unfoldable pub report_end :
    ErrnoText → Log → (name : GoString) → Attempt (Unit {0}) → Program (Unit {0})
unfolding error_text
report_end texts l name (returned _) = ignore (l.info 1 (stopped_text name))
report_end texts l name (failed e) = ignore (l.error 1 (failed_text name (error_text texts e)))

-- From `defer elog.Close()` on.
unfoldable pub run_with :
    ErrnoText → Log → (GoString → Program (Unit {0})) → (name : GoString) → Program (Unit {0})
unfolding report_end
run_with texts l run name = deferred (ignore l.close) (do
  _ ← ignore (l.info 1 (starting name))
  ended ← attempt (run name)
  report_end texts l name ended)

-- debug.Run, where Execute returned this exit code.
unfoldable pub console_run : ExitCode → GoString → Program (Unit {0})
unfolding exit_result
console_run ec name = on_console (λ console out. (exit_result ec, out))

unfoldable pub service_run : (svcmain : ℕ) → Callback → GoString → Program (Unit {0})
unfolding Run.run_service
service_run svcmain callback name = on_windows (Run.run_service name svcmain callback)

unfoldable pub run_opened :
    ErrnoText
    → (svcmain : ℕ) → Callback
    → (name : GoString) → Attempt EventSource.Log
    → Program (Unit {0})
run_opened texts svcmain callback name (failed e) = return tt
run_opened texts svcmain callback name (returned l) =
    run_with texts (event_log l) (service_run svcmain callback) name

unfoldable pub run_service :
    ErrnoText
    → (svcmain : ℕ) → Callback
    → ExitCode
    → (name : GoString) → (is_debug : Bool) → Program (Unit {0})
run_service texts svcmain callback ec name is_debug =
    if is_debug then run_with texts (console_log (Console.new name)) (console_run ec) name else (do
      opened ← attempt (on_windows (EventSource.open_log name))
      run_opened texts svcmain callback name opened)
