-- ===== src/Tests/Goroutines.antt =====
-- run with the handler of the example: it has said that it starts, and a stop request has come.
use winsvc.Prelude.{inr, ◌≢◌, refl, arith, false, true, [], ◌∷◌}
use winsvc.Winapi.System.{Trace}
use winsvc.Svc.Types.{bare_status, start_pending, stop, shutdown}
use winsvc.Svc.Service.{update_status}
use winsvc.Svc.Loop.{Round, start_round, received, reported, change, go_on, select}
use winsvc.Svc.Handler.{State, executing, first_state, changed, controlled, Reach, here, next}
use winsvc.Svc.Handler.Advance.{CanLeave}
use winsvc.Example.Goroutines.{Execution, at_start, announcing, crashed, main_speaks, Execute}
use winsvc.Example.Goroutines.Crash.{Execute-runs_on}
use winsvc.Example.Goroutines.Stops.{Commands, Execute-CanLeave}
use winsvc.Tests.Data.{generous, beeper, event_of}

abbrev told : Trace
told = (select beeper (change (bare_status start_pending)) start_round generous []).1

abbrev reporting : Round
reporting = record {
  vars = record (start_round.vars) { status = bare_status start_pending };
  log = reported (bare_status start_pending) ∷ [];
}

abbrev pending : Round
pending = record {
  vars = record (reporting.vars) { inch = false; outch = true; cmd = stop };
  log = received stop ∷ reporting.log;
}

abbrev greeted : Execution
greeted = record at_start { place = announcing }

abbrev before : State Execution
before = record { handler = greeted; phase = executing; turn = go_on reporting; trace = told }

abbrev called : State Execution
called = record before { turn = go_on pending }

Reach-called : Reach Execute beeper generous (first_state at_start []) called
unfolding select update_status
Reach-called =
    next
      (next {v = before} here (
        changed start_round (bare_status start_pending) greeted refl (main_speaks refl)
          (refl, go_on reporting, told, refl, refl)))
      (controlled reporting (event_of stop 0) refl (refl, go_on pending, told, refl, refl))

Execute-runs_on_example : called.handler.place ≢ crashed
Execute-runs_on_example = Execute-runs_on beeper generous [] called Reach-called (omega arith)

announcing-crashed : announcing ≢ crashed
announcing-crashed h = cc

Execute-CanLeave_example : CanLeave Execute beeper generous (Commands shutdown) called
Execute-CanLeave_example =
    Execute-CanLeave beeper generous shutdown [] called pending (inr refl) Reach-called refl
      announcing-crashed
