-- ===== src/Debug/Session/Console.antt =====
-- The console serves a handler by its function for the offers that the handler makes.
use winsvc.Prelude.{◌≡◌, refl, ap, ◌∙◌, List, [], ◌∷◌, ◌++◌}
use winsvc.Svc.Types.{ChangeRequest, Status}
use winsvc.Svc.Handler.{Act}
use winsvc.Svc.Handler.Alone.{latest, Runs, start, send, receive, work, leave}
use winsvc.Debug.Pump.{
  Place, selecting, sending, Offer, signal, deliver, change, Happening, Pump, pump, run_pump,
}
use winsvc.Debug.Pump
use winsvc.Debug.Pump.Contract.{
  Stops, none_yet, signal_came, stop_sent, status_changed, run_pump-Stops,
}
use winsvc.Debug.Session.{
  State, first_state, Step, signalled, delivered, changed, worked, returned, Reach, here, next,
  stop_request,
}

-- The requests that were handed on and the statuses that were taken, the latest first.
abbrev pub handed : List Happening → List ChangeRequest
handed [] = []
handed (Pump.signalled ∷ log) = handed log
handed (Pump.sent c ∷ log) = c ∷ handed log
handed (Pump.changed st ∷ log) = handed log

abbrev pub heard : List Happening → List Status
heard [] = []
heard (Pump.signalled ∷ log) = heard log
heard (Pump.sent c ∷ log) = heard log
heard (Pump.changed st ∷ log) = st ∷ heard log

run_pump-snoc :
    (offers : List Offer) (o : Offer) (p : Pump)
    → run_pump (offers ++ o ∷ []) p ≡ pump o (run_pump offers p)
unfolding run_pump
run_pump-snoc [] o p = refl
run_pump-snoc (x ∷ offers) o p = run_pump-snoc offers o (pump x p)

-- What a peer that is ready adds to the log.
pump_signal-log : (p : Pump) → p.place ≡ selecting → (pump signal p).log ≡ Pump.signalled ∷ p.log
unfolding pump
pump_signal-log p e = rw (e) refl

pump_deliver-log :
    (p : Pump) → p.place ≡ sending → (pump deliver p).log ≡ Pump.sent (stop_request p) ∷ p.log
unfolding pump
pump_deliver-log p e = rw (e) refl

pump_change-log :
    (st : Status) (p : Pump)
    → p.place ≡ selecting
    → (pump (change st) p).log ≡ Pump.changed st ∷ p.log
unfolding pump
pump_change-log st p e = rw (e) refl

-- The function of the goroutine over some offers leads to a state.
abbrev pub IsPumped : Pump → Type 0
IsPumped p = (offers : List Offer) × (run_pump offers Pump.start ≡ p)

pump-IsPumped : (o : Offer) (p : Pump) → IsPumped p → IsPumped (pump o p)
pump-IsPumped o p (offers, e) =
    (offers ++ o ∷ [], run_pump-snoc offers o Pump.start ∙ ap (pump o) e)

pump-Stops : (p : Pump) → IsPumped p → Stops p.log p.place p.status
pump-Stops p (offers, e) = rw e at (run_pump-Stops offers)

Stops-latest :
    {log : List Happening} {place : Place} {st : Status}
    → Stops log place st
    → st ≡ latest (heard log)
Stops-latest none_yet = refl
Stops-latest (signal_came h) = Stops-latest h
Stops-latest (stop_sent h) = Stops-latest h
Stops-latest (status_changed st h) = refl

module _ {S : Type 0} (May : S → Act S → Type 0) (h₀ : S) where
  -- The other goroutine is that of its function over some offers, and the handler has run by
  -- itself with what was handed on and taken.
  abbrev IsServed : State S → Type 0
  IsServed u =
      IsPumped u.pump × Runs May h₀ (handed u.pump.log) (heard u.pump.log) u.handler u.result

  Step-IsServed : {t u : State S} → Step May t u → IsServed t → IsServed u
  Step-IsServed {t} {u} (signalled e same) (p, r) =
      rw same (pump-IsPumped signal t.pump p, rw (pump_signal-log t.pump e) r)
  Step-IsServed {t} {u} (delivered h e m same) (p, r) = rw same (
    pump-IsPumped deliver t.pump p,
    rw (pump_deliver-log t.pump e)
        (receive (stop_request t.pump) h (Stops-latest (pump-Stops t.pump p)) m r),
  )
  Step-IsServed {t} {u} (changed st h e m same) (p, r) =
      rw same (pump-IsPumped (change st) t.pump p, rw (pump_change-log st t.pump e) (send st h m r))
  Step-IsServed {t} {u} (worked h m same) (p, r) = rw same (p, work h m r)
  Step-IsServed {t} {u} (returned ec h e m same) (p, r) = rw same (p, leave ec h m (rw e at r))

  Reach-IsServed : {t u : State S} → Reach May t u → IsServed t → IsServed u
  Reach-IsServed here v = v
  Reach-IsServed (next r st) v = Step-IsServed st (Reach-IsServed r v)

  -- With the contract of the goroutine.
  abbrev pub IsConsole : State S → Type 0
  IsConsole u = IsServed u × Stops u.pump.log u.pump.place u.pump.status

-- However debug.Run and a handler interleave, the goroutine of Run does what its function does for
-- some list of offers, and the handler has run by itself: it was given stop requests only, one for
-- each signal that was received, each with the status that was taken last, and has sent exactly the
-- statuses that were taken, in their order.
pub session-IsConsole :
    {S : Type 0} (May : S → Act S → Type 0) (h : S) (u : State S)
    → Reach May (first_state h) u
    → IsConsole May h u
unfolding run_pump
session-IsConsole May h u r =
    let served = Reach-IsServed May h r (([], refl), start) in (served, pump-Stops u.pump served.0)
