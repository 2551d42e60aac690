-- ===== src/Example/Main/Held.antt =====
-- What the program holds when main ends.
use winsvc.Prelude.{ℕ, ◌≡◌, ◌≢◌, refl, ◌∙◌, Bool, true, false, List, [], ◌∷◌, arith}
use winsvc.Unicode.{GoString, codes}
use winsvc.Winapi.System.{Os, Trace, Outcome, ok, err, panic, M, Attempt}
use winsvc.Winapi.Resources.{live}
use winsvc.Winapi.Resources.Bracket.{KeepsLive}
use winsvc.Debug.Console
use winsvc.Debug.Log.{
  World, Program, return, with_trace, settle, resume, on_windows, attempt, ◌>>=◌, console_log,
}
use winsvc.Svc.Types.{stop, pause, continue, stopped, paused, running}
use winsvc.Svc.Security.{is_an_interactive_session}
use winsvc.Svc.Security.Tokens.{is_an_interactive_session-KeepsLive}
use winsvc.Example.Install.{install_service, remove_service}
use winsvc.Example.Install.Held.{install_service-KeepsLive, remove_service-KeepsLive}
use winsvc.Example.Manage.{start_service, control_service}
use winsvc.Example.Manage.Held.{start_service-KeepsLive, control_service-KeepsLive}
use winsvc.Example.Running.{run_service, run_with, report_end, console_run}
use winsvc.Example.Main.{
  Setting, Ended, svc_name, carry_out, control, serve, dispatch, interactive, in_session, main,
}

-- However the program ends, it holds what it held before.
abbrev pub Frees : {A : Type 0} → Program A → Type 0
Frees m =
    (os : Os) (console : Console.Console) (w : World) → live (m os console w).1.trace ≡ live w.trace

-- A call out to Windows, and what is made of its result.
reported-Frees :
    {A : Type 0} (m : M A) (f : Attempt A → Ended)
    → KeepsLive m
    → Frees (attempt (on_windows m) >>= λ x. return (f x))
reported-Frees {A} m f k os console w = cases (m os w.trace) (k os w.trace)
  where
    cases :
        (x : Outcome A × Trace)
        → live x.1 ≡ live w.trace
        → live (resume (settle (with_trace x w)) (λ y. return (f y)) os console).1.trace
          ≡ live w.trace
    cases (ok a, t) h = h
    cases (err e, t) h = h
    cases (panic, t) h = h

serve-Frees : (s : Setting) → Frees (serve s true)
unfolding serve run_service run_with report_end console_run console_log Console.new
serve-Frees s os console w = ground arith

carry_out-Frees :
    (s : Setting) (cmd : GoString) (m : M (Unit {0}))
    → KeepsLive m
    → Frees (carry_out s.texts cmd m)
unfolding carry_out
carry_out-Frees s cmd m k = reported-Frees m _ k

control-Frees : (s : Setting) (cmd : GoString) (c to : ℕ) → Frees (control s cmd c to)
unfolding control
control-Frees s cmd c to =
    reported-Frees (control_service svc_name c to s.clock) _
      (control_service-KeepsLive svc_name c to s.clock)

dispatch-Frees : (s : Setting) (prog cmd : GoString) → Frees (dispatch s prog cmd)
unfolding dispatch
dispatch-Frees s prog cmd os console w =
    let install = install_service s.files prog svc_name (codes "my service") in
    let installing = install_service-KeepsLive s.files prog svc_name (codes "my service") in
    ground (
      arith,
      serve-Frees s os console w,
      carry_out-Frees s cmd install installing os console w,
      carry_out-Frees s cmd (remove_service svc_name) (remove_service-KeepsLive svc_name) os console
          w,
      carry_out-Frees s cmd (start_service svc_name) (start_service-KeepsLive svc_name) os console
          w,
      control-Frees s cmd stop stopped os console w,
      control-Frees s cmd pause paused os console w,
      control-Frees s cmd continue running os console w,
    )

interactive-Frees : (s : Setting) (args : List GoString) → Frees (interactive s args)
unfolding interactive
interactive-Frees s [] os console w = refl
interactive-Frees s (prog ∷ []) os console w = refl
interactive-Frees s (prog ∷ arg ∷ args) os console w =
    dispatch-Frees s prog (s.to_lower arg) os console w

-- Behind the question whether the session is interactive, if it is not denied.
session-Frees :
    (s : Setting) (x : Outcome Bool × Trace) (os : Os) (console : Console.Console) (w : World)
    → x.0 ≢ ok false
    → live x.1 ≡ live w.trace
    → live (resume (settle (with_trace x w)) (in_session s) os console).1.trace ≡ live w.trace
unfolding in_session
session-Frees s (ok true, t) os console w k h =
    interactive-Frees s s.args os console (record w { trace = t }) ∙ h
session-Frees s (ok false, t) os console w k h = absurd (k refl)
session-Frees s (err e, t) os console w k h = h
session-Frees s (panic, t) os console w k h = h

-- Unless the session is found not to be interactive, and the program runs as a service, main ends
-- with every handle, key and SID given back that it was handed, whichever command it is given and
-- whatever Windows answers.
pub main-Frees :
    (s : Setting) (os : Os) (console : Console.Console) (w : World)
    → (is_an_interactive_session os w.trace).0 ≢ ok false
    → live (main s os console w).1.trace ≡ live w.trace
unfolding main
main-Frees s os console w k =
    session-Frees s (is_an_interactive_session os w.trace) os console w k
      (is_an_interactive_session-KeepsLive os w.trace)
