-- ===== src/Tests/Program.antt =====
-- The example's program at concrete data.
use winsvc.Prelude.{◌≡◌, ◌≢◌, refl, true, false, none, [], ◌∷◌, arith}
use winsvc.Unicode.{GoString, codes, has_nul}
use winsvc.Winapi.System.{Error, err, errno, message, wrapped, Call, Os, ok}
use winsvc.Winapi.Resources.{live}
use winsvc.Debug.Console
use winsvc.Debug.Log.{World, Program, ◌>>=◌, ignore, on_console, console_log, event_log}
use winsvc.Svc.Run.{made}
use winsvc.Svc.Security.{
  is_an_interactive_session, query_token, get_token_groups, scan_groups, search_groups,
}
use winsvc.Example.Running.{error_text, console_run}
use winsvc.Example.Running.Logged.{started, IsLogged, run_with-IsLogged}
use winsvc.Debug.Log.Journal.{console_journal, event_journal}
use winsvc.Debug.Pump.{exit_result}
use winsvc.Example.Main.{Setting, main}
use winsvc.Example.Main.Held.{main-Frees}
use winsvc.Tests.Data.{generous, reply, exit_with}
use winsvc.Tests.Example.{files}

-- A standard output that takes everything.
abbrev open_console : Console.Console
open_console out text = none

abbrev fresh : World
fresh = record { trace = []; written = [] }

-- A Windows that grants every wish, and holds that each group is the one asked for.
abbrev agreeing : Os
agreeing t (Call.equal_sid a b) = reply 1 0 0 0
agreeing t c = generous t c

abbrev setting : Setting
setting = record {
  args = codes "example.exe" ∷ codes "stop" ∷ [];
  to_lower = λ s. s;
  texts = λ n. codes "refused";
  files = files;
  clock = false ∷ true ∷ [];
  svcmain = 5;
  callback = made 6;
  console_exit = exit_with 0;
}

interactive_test : (is_an_interactive_session agreeing []).0 ≡ ok true
unfolding is_an_interactive_session query_token get_token_groups scan_groups search_groups
interactive_test = refl

is_interactive : (is_an_interactive_session agreeing []).0 ≢ ok false
is_interactive h = cc interactive_test

main-Frees_example : live (main setting agreeing open_console fresh).1.trace ≡ []
main-Frees_example = main-Frees setting agreeing open_console fresh is_interactive

-- A run that writes an error to the log on the console itself, and fails.
abbrev complaining : GoString → Program (Unit {0})
complaining name = do
  _ ← ignore ((console_log (Console.new name)).error 1 (codes "unexpected control request #9"))
  on_console (λ console out. (exit_result (exit_with 3), out))

run_fails :
    (e : Error)
    → (complaining (codes "beeper") generous open_console (
        started
          (λ n. codes "refused")
          (console_log (Console.new (codes "beeper")))
          (console_journal (Console.new (codes "beeper")))
          complaining
          (codes "beeper")
          generous
          open_console
          fresh)).0
      ≡ err e
    → has_nul (error_text (λ n. codes "refused") e) ≡ false
unfolding error_text has_nul exit_result console_log
run_fails (errno n) h = refl
run_fails (message m) h = absurd (ground arith)
run_fails (wrapped m e) h = absurd (ground arith)

run_with-IsLogged_example :
    IsLogged
      (λ n. codes "refused")
      (console_log (Console.new (codes "beeper")))
      (console_journal (Console.new (codes "beeper")))
      complaining
      (codes "beeper")
      generous
      open_console
      fresh
unfolding has_nul
run_with-IsLogged_example =
    run_with-IsLogged (λ n. codes "refused") (console_log (Console.new (codes "beeper")))
      (console_journal (Console.new (codes "beeper"))) complaining (codes "beeper") generous
      open_console fresh refl run_fails

-- The same on an event log, where the run asks nothing of Windows.
event_log_test :
    IsLogged
      (λ n. codes "refused")
      (event_log (record { handle = 7 }))
      (event_journal (record { handle = 7 }))
      (console_run (exit_with 0))
      (codes "beeper")
      generous
      open_console
      fresh
unfolding has_nul console_run exit_result
event_log_test =
    run_with-IsLogged (λ n. codes "refused") (event_log (record { handle = 7 }))
      (event_journal (record { handle = 7 })) (console_run (exit_with 0)) (codes "beeper") generous
      open_console fresh refl (λ e h. absurd (ground arith))
