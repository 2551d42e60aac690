-- ===== src/Tests/Console.antt =====
-- The handler of the example on the console, with a signal, and with one too many.
use winsvc.Prelude.{◌≡◌, refl, none}
use winsvc.Svc.Types.{bare_status, start_pending, running}
use winsvc.Debug.Pump.{sending, signal, deliver, change, Pump, start, pump}
use winsvc.Debug.Session.{State, first_state, Reach, here, next, signalled, delivered, changed}
use winsvc.Debug.Session.Console.{IsConsole, session-IsConsole}
use winsvc.Example.Handler.{accepting}
use winsvc.Example.Goroutines.{
  Execution, at_start, announcing, selecting, leaving, main_speaks, on_request, Execute,
}
use winsvc.Example.Goroutines.Returns.{CanReturn, Execute-CanReturn}
use winsvc.Example.Goroutines.Hangs.{Execute-hangs}

abbrev signalled_once : Pump
signalled_once =
    pump signal
      (pump (change (accepting running)) (pump (change (bare_status start_pending)) start))

abbrev stopping : State Execution
stopping = record {
  handler = record at_start { place = leaving };
  result = none;
  pump = pump deliver signalled_once;
}

Reach-stopping : Reach Execute (first_state at_start) stopping
unfolding pump on_request
Reach-stopping =
    next
      (next
        (next
          (next here (
            changed (bare_status start_pending) (record at_start { place = announcing }) refl
              (main_speaks refl) refl))
          (changed (accepting running) (record at_start { place = selecting }) refl
            (main_speaks refl) refl))
        (signalled refl refl))
      (delivered (record at_start { place = leaving }) refl (refl, refl) refl)

session-IsConsole_example : IsConsole Execute at_start stopping
session-IsConsole_example = session-IsConsole Execute at_start stopping Reach-stopping

abbrev signalled_twice : State Execution
signalled_twice = record stopping { pump = pump signal (pump deliver signalled_once) }

Reach-signalled_twice : Reach Execute (first_state at_start) signalled_twice
unfolding pump
Reach-signalled_twice = next Reach-stopping (signalled refl refl)

Execute-hangs_example :
    (signalled_twice.pump ≡ signalled_twice.pump) × (signalled_twice.result ≡ none)
unfolding pump
Execute-hangs_example =
    Execute-hangs signalled_twice signalled_twice Reach-signalled_twice refl tt here

stopping-selecting : stopping.pump.place ≡ sending → ⊥
unfolding pump
stopping-selecting h = cc

Execute-CanReturn_example : CanReturn stopping
Execute-CanReturn_example = Execute-CanReturn stopping Reach-stopping (λ h k. stopping-selecting h)
