-- ===== src/Example/Manage.antt =====
-- example/manage.go: starting and controlling the service. The clock of controlService is a list:
-- for each time that its loop looks at it, whether the 10 seconds are over.
pub mod Polls
pub mod Reaches
pub mod Held
use winsvc.Prelude.{ℕ, Bool, true, false, List, [], ◌∷◌, ◌++◌, ◌==◌, if◌then◌else◌}
use winsvc.Unicode.{GoString, codes}
use winsvc.Winapi.System.{
  Error, message, wrapped, Outcome, ok, err, panic, Trace, M, return, fail, ◌>>=◌, ignore, deferred,
}
use winsvc.Debug.Console.{itoa}
use winsvc.Mgr.Manager.{Mgr, Service, connect, disconnect, open_service}
use winsvc.Mgr.Control
use winsvc.Svc.Types.{Status}

-- `if err != nil { return fmt.Errorf("<text>: %v", err) }`
abbrev pub wrap : {A : Type 0} → GoString → Outcome A × Trace → Outcome A × Trace
wrap text (ok a, t) = (ok a, t)
wrap text (err e, t) = (err (wrapped text e), t)
wrap text (panic, t) = (panic, t)

abbrev pub explained : {A : Type 0} → GoString → M A → M A
explained text m os t = wrap text (m os t)

abbrev pub program_args : List GoString
program_args = codes "p1" ∷ codes "p2" ∷ codes "p3" ∷ []

-- Connect, and OpenService behind it, with the two deferred calls around what follows.
unfoldable pub with_service : {A : Type 0} → (name : GoString) → (Service → M A) → M A
unfolding disconnect Control.close
with_service name body = do
  m ← connect
  deferred (ignore (disconnect m)) (do
    s ← explained (codes "could not access service: ") (open_service m name)
    deferred (ignore (Control.close s)) (body s))

unfoldable pub start_service : (name : GoString) → M (Unit {0})
unfolding with_service Control.start
start_service name =
    with_service name
      (λ s. explained (codes "could not start service: ") (Control.start s program_args))

abbrev pub query_now : Service → M Status
query_now s = explained (codes "could not retrieve service status: ") (Control.query s)

abbrev pub send : (c : ℕ) → Service → M Status
send c s =
    explained (codes "could not send control=" ++ (itoa c ++ codes ": ")) (Control.control s c)

-- How far the loop of controlService came: the service is in the state that it waits for, or the
-- loop sleeps.
pub data Polled : Type 0 where
  reached : Polled
  sleeping : Polled

-- The loop of controlService.
unfoldable pub poll : Service → (to : ℕ) → List Bool → Status → M Polled
unfolding Control.query
poll s to [] status = return (if status.state == to then reached else sleeping)
poll s to (late ∷ clock) status =
    if status.state == to
    then return reached
    else if late
    then fail (message (codes "timeout waiting for service to go to state=" ++ itoa to))
    else (do now ← query_now s; poll s to clock now)

unfoldable pub send_and_poll : (c to : ℕ) → List Bool → Service → M Polled
unfolding Control.control poll
send_and_poll c to clock s = do status ← send c s; poll s to clock status

unfoldable pub control_service : (name : GoString) → (c to : ℕ) → List Bool → M Polled
unfolding with_service send_and_poll
control_service name c to clock = with_service name (send_and_poll c to clock)
