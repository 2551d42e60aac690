-- ===== src/Example/Goroutines/Returns.antt =====
-- Execute on the console, where it does not hang.
use winsvc.Prelude.{◌≡◌, ◌≢◌, refl, ap, List, [], ◌∷◌, Option, none, some, All, true, false, arith}
use winsvc.Svc.Types.{Status, ChangeRequest, ExitCode, bare_status, start_pending, running, paused}
use winsvc.Debug.Pump.{Place, selecting, sending, signal, deliver, change, Pump, pump}
use winsvc.Debug.Session.{
  State, first_state, stop_request, Step, signalled, delivered, changed, worked, returned, Reach,
  here, next,
}
use winsvc.Debug.Session.Console.{session-IsConsole}
use winsvc.Example.Handler.{accepting}
use winsvc.Example.Goroutines.{
  starting, announcing, echoing, echoing_again, pausing, continuing, leaving, ending, ended,
  crashed, Execution, at_start, says, on_request, last_status, main_speaks, concludes, no_error,
  Execute,
}
use winsvc.Example.Goroutines
use winsvc.Example.Goroutines.Frames.{on_request-stop}
use winsvc.Example.Goroutines.Hangs.{IsSpeaking, IsStop, Stops-All}
use winsvc.Example.Goroutines.Crash.{count, Runs-IsCounted}

abbrev pub IsReturned : Option ExitCode → Type 0
IsReturned none = ⊥
IsReturned (some ec) = Unit

-- Run can return.
abbrev pub CanReturn : State Execution → Type 0
CanReturn t = (v : State Execution) × Reach Execute t v × IsReturned v.result

Reach-cons : {t u v : State Execution} → Step Execute t u → Reach Execute u v → Reach Execute t v
Reach-cons st here = next here st
Reach-cons st (next r st') = next (Reach-cons st r) st'

step_to : (t u : State Execution) → Step Execute t u → CanReturn u → CanReturn t
step_to t u st (v, r, b) = (v, Reach-cons st r, b)

pump_signal-place : (p : Pump) → p.place ≡ selecting → (pump signal p).place ≡ sending
unfolding pump
pump_signal-place p e = rw (e) refl

pump_deliver-place : (p : Pump) → p.place ≡ sending → (pump deliver p).place ≡ selecting
unfolding pump
pump_deliver-place p e = rw (e) refl

pump_change-place :
    (st : Status) (p : Pump) → p.place ≡ selecting → (pump (change st) p).place ≡ selecting
unfolding pump
pump_change-place st p e = rw (e) refl

-- Execute has not returned.
abbrev at : Execution → Pump → State Execution
at h p = record { handler = h; result = none; pump = p }

from_ended : (h : Execution) (p : Pump) → h.place ≡ ended → CanReturn (at h p)
from_ended h p e =
    let v : State Execution = record { handler = h; result = some no_error; pump = p } in
    (v, next here (returned no_error h refl (e, refl, refl) refl), tt)

-- A status is taken.
say :
    (h h' : Execution) (p : Pump) (st : Status)
    → says h.place h ≡ some (st, h')
    → p.place ≡ selecting
    → CanReturn (at h' (pump (change st) p))
    → CanReturn (at h p)
say h h' p st m e k =
    step_to (at h p) (at h' (pump (change st) p)) (changed st h' e (main_speaks m) refl) k

from_ending :
    (h : Execution) (p : Pump) (st : Status)
    → h.place ≡ ending st
    → p.place ≡ selecting
    → CanReturn (at h p)
from_ending h p st e i =
    let h' = record h { place = ended } in
    say h h' p st (rw e refl) i (from_ended h' (pump (change st) p) refl)

from_leaving :
    (h : Execution) (p : Pump) → h.place ≡ leaving → p.place ≡ selecting → CanReturn (at h p)
from_leaving h p e i =
    let h' = record h { place = ending (last_status h) } in
    step_to (at h p) (at h' p) (worked h' (concludes e refl) refl)
      (from_ending h' p (last_status h) refl i)

from_sending :
    (h : Execution) (p : Pump)
    → h.place ≡ Goroutines.selecting
    → p.place ≡ sending
    → CanReturn (at h p)
from_sending h p e i =
    let h' = on_request (stop_request p) h in
    step_to (at h p) (at h' (pump deliver p)) (delivered h' i (e, refl) refl) (
      from_leaving h' (pump deliver p) (ap (λ t. t.place) (on_request-stop (stop_request p) h refl))
        (pump_deliver-place p i))

from_select :
    (h : Execution) (p : Pump) (place : Place)
    → h.place ≡ Goroutines.selecting
    → p.place ≡ place
    → CanReturn (at h p)
from_select h p sending e i = from_sending h p e i
from_select h p selecting e i =
    step_to (at h p) (at h (pump signal p)) (signalled i refl)
      (from_sending h (pump signal p) e (pump_signal-place p i))

-- One status leads to the select.
speak :
    (h h' : Execution) (p : Pump) (st : Status)
    → says h.place h ≡ some (st, h')
    → h'.place ≡ Goroutines.selecting
    → p.place ≡ selecting
    → CanReturn (at h p)
speak h h' p st m e i =
    say h h' p st m i (from_select h' (pump (change st) p) selecting e (pump_change-place st p i))

from_place :
    (h : Execution) (p : Pump) (place : Goroutines.Place)
    → h.place ≡ place
    → place ≢ crashed
    → p.place ≡ selecting
    → CanReturn (at h p)
from_place h p starting e n i =
    let h' = record h { place = announcing } in
    let h'' = record h { place = Goroutines.selecting } in
    say h h' p (bare_status start_pending) (rw e refl) i (
      speak h' h'' (pump (change (bare_status start_pending)) p) (accepting running) refl refl
        (pump_change-place (bare_status start_pending) p i))
from_place h p announcing e n i =
    speak h (record h { place = Goroutines.selecting }) p (accepting running) (rw e refl) refl i
from_place h p (echoing st) e n i =
    let h' = record h { place = echoing_again st } in
    let h'' = record h { place = Goroutines.selecting } in
    say h h' p st (rw e refl) i
      (speak h' h'' (pump (change st) p) st refl refl (pump_change-place st p i))
from_place h p (echoing_again st) e n i =
    speak h (record h { place = Goroutines.selecting }) p st (rw e refl) refl i
from_place h p pausing e n i =
    speak h (record h { place = Goroutines.selecting; fast = false }) p (accepting paused)
      (rw e refl) refl i
from_place h p continuing e n i =
    speak h (record h { place = Goroutines.selecting; fast = true }) p (accepting running)
      (rw e refl) refl i
from_place h p Goroutines.selecting e n i = from_select h p selecting e i
from_place h p leaving e n i = from_leaving h p e i
from_place h p (ending st) e n i = from_ending h p st e i
from_place h p ended e n i = from_ended h p e
from_place h p crashed e n i = absurd (n refl)

-- While a stop request waits, Execute must be at its select or at its end.
from_waiting :
    (h : Execution) (p : Pump) (place : Goroutines.Place)
    → h.place ≡ place
    → place ≢ crashed
    → p.place ≡ sending
    → (IsSpeaking place → ⊥)
    → CanReturn (at h p)
from_waiting h p Goroutines.selecting e n i k = from_sending h p e i
from_waiting h p ended e n i k = from_ended h p e
from_waiting h p crashed e n i k = absurd (n refl)
from_waiting h p _ e n i k = absurd (k tt)

count-stops : (cs : List ChangeRequest) → All IsStop cs → count cs ≡ 0
count-stops [] all = refl
count-stops (c ∷ cs) (e, all) = rw (e) (omega (arith, count-stops cs all))

from_pump :
    (h : Execution) (p : Pump) (place : Place)
    → h.place ≢ crashed
    → p.place ≡ place
    → (p.place ≡ sending → IsSpeaking h.place → ⊥)
    → CanReturn (at h p)
from_pump h p selecting n i k = from_place h p h.place refl n i
from_pump h p sending n i k = from_waiting h p h.place refl n i (k i)

from_result :
    (h : Execution) (p : Pump) (x : Option ExitCode)
    → h.place ≢ crashed
    → (p.place ≡ sending → IsSpeaking h.place → ⊥)
    → CanReturn (record { handler = h; result = x; pump = p })
from_result h p none n k = from_pump h p p.place n refl k
from_result h p (some ec) n k = (record { handler = h; result = some ec; pump = p }, here, tt)

-- On the console the example can be stopped unless a stop request waits while Execute has a status
-- to send: from each other state that they reach there are steps to a return of Execute.
pub Execute-CanReturn :
    (u : State Execution)
    → Reach Execute (first_state at_start) u
    → (u.pump.place ≡ sending → IsSpeaking u.handler.place → ⊥)
    → CanReturn u
Execute-CanReturn u r k =
    let (served, stops) = session-IsConsole Execute at_start u r in
    let none_counted = count-stops _ (Stops-All stops) in
    from_result u.handler u.pump u.result
      (λ e. omega (arith, none_counted, (Runs-IsCounted served.1).0 e)) k
