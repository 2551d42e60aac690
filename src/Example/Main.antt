-- ===== src/Example/Main.antt =====
-- example/main.go: which command the program carries out. Its arguments, strings.ToLower, the
-- texts of the errnos and what the commands need of the file system, the clock, the threads of svc
-- and the handler are a record.
pub mod Held
use winsvc.Prelude.{ℕ, Bool, true, false, not, List, [], ◌∷◌, ◌++◌, if◌then◌else◌}
use winsvc.Unicode.{GoString, codes, same_text}
use winsvc.Winapi.System.{Error, Attempt, returned, failed, M}
use winsvc.Debug.Log.{Program, return, panics, on_windows, attempt, ◌>>=◌}
use winsvc.Example.Install.{Files, install_service, remove_service}
use winsvc.Example.Manage.{Polled, reached, sleeping, start_service, control_service}
use winsvc.Example.Running.{ErrnoText, error_text, run_service}
use winsvc.Svc.Run.{Callback}
use winsvc.Svc.Security.{is_an_interactive_session}
use winsvc.Svc.Types.{ExitCode, stop, pause, continue, stopped, paused, running}

pub record Setting : Type 0 where
  pub args : List GoString
  pub to_lower : GoString → GoString
  pub texts : ErrnoText
  pub files : Files
  pub clock : List Bool
  pub svcmain : ℕ
  pub callback : Callback
  pub console_exit : ExitCode

-- How main ends: it returns, log.Fatalf prints a text and exits with 1, or usage prints one and
-- exits with 2; or it still waits for the service to reach a state.
pub data Ended : Type 0 where
  done : Ended
  fatal : GoString → Ended
  misused : GoString → Ended
  polling : Ended

abbrev pub svc_name : GoString
svc_name = codes "myservice"

unfoldable pub usage : (prog errmsg : GoString) → Ended
usage prog errmsg = misused (
    errmsg
    ++ (codes "\n\nusage: "
        ++ (prog
            ++ codes
                " <command>\n       where <command> is one of\n       install, remove, debug, start, stop, pause or continue.\n")))

-- What stands behind the switch, where the command fails.
unfoldable pub failure : ErrnoText → (cmd : GoString) → Error → Ended
unfolding error_text
failure texts cmd e =
    fatal (
      codes "failed to "
      ++ (cmd ++ (codes " " ++ (svc_name ++ (codes ": " ++ error_text texts e)))))

unfoldable pub report : ErrnoText → (cmd : GoString) → Attempt (Unit {0}) → Ended
unfolding failure
report texts cmd (returned _) = done
report texts cmd (failed e) = failure texts cmd e

unfoldable pub report_polled : ErrnoText → (cmd : GoString) → Attempt Polled → Ended
unfolding failure
report_polled texts cmd (returned reached) = done
report_polled texts cmd (returned sleeping) = polling
report_polled texts cmd (failed e) = failure texts cmd e

unfoldable pub carry_out : ErrnoText → (cmd : GoString) → M (Unit {0}) → Program Ended
unfolding report
carry_out texts cmd m = do ended ← attempt (on_windows m); return (report texts cmd ended)

unfoldable pub control : Setting → (cmd : GoString) → (c to : ℕ) → Program Ended
unfolding report_polled
control s cmd c to = do
  ended ← attempt (on_windows (control_service svc_name c to s.clock))
  return (report_polled s.texts cmd ended)

unfoldable pub serve : Setting → (is_debug : Bool) → Program Ended
serve s is_debug = do
  _ ← run_service s.texts s.svcmain s.callback s.console_exit svc_name is_debug
  return done

-- The switch over the command.
unfoldable pub dispatch : Setting → (prog cmd : GoString) → Program Ended
unfolding usage carry_out control serve
dispatch s prog cmd =
    if same_text cmd (codes "debug")
    then serve s true
    else if same_text cmd (codes "install")
    then carry_out s.texts cmd (install_service s.files prog svc_name (codes "my service"))
    else if same_text cmd (codes "remove")
    then carry_out s.texts cmd (remove_service svc_name)
    else if same_text cmd (codes "start")
    then carry_out s.texts cmd (start_service svc_name)
    else if same_text cmd (codes "stop")
    then control s cmd stop stopped
    else if same_text cmd (codes "pause")
    then control s cmd pause paused
    else if same_text cmd (codes "continue")
    then control s cmd continue running
    else return (usage prog (codes "invalid command " ++ cmd))

-- In an interactive session. Without arguments os.Args[0] is a panic.
unfoldable pub interactive : Setting → List GoString → Program Ended
unfolding dispatch
interactive s [] = panics
interactive s (prog ∷ []) = return (usage prog (codes "no command specified"))
interactive s (prog ∷ arg ∷ args) = dispatch s prog (s.to_lower arg)

unfoldable pub in_session : Setting → Attempt Bool → Program Ended
unfolding interactive
in_session s (failed e) = return (
    fatal (
      codes "failed to determine if we are running in an interactive session: "
      ++ error_text s.texts e))
in_session s (returned is_int_sess) =
    if not is_int_sess then serve s false else interactive s s.args

unfoldable pub main : Setting → Program Ended
unfolding is_an_interactive_session in_session
main s = do found ← attempt (on_windows is_an_interactive_session); in_session s found
