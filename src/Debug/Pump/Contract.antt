-- ===== src/Debug/Pump/Contract.antt =====
-- What the handler meets on the console, and where it can be left alone.
use winsvc.Prelude.{◌≡◌, ◌≢◌, refl, List, [], ◌∷◌, All, arith}
use winsvc.Svc.Types.{Status, bare_status, stop, stopped}
use winsvc.Debug.Pump.{
  Place, selecting, sending, Offer, signal, deliver, change, Happening, signalled, sent, changed,
  Pump, start, pump_at, pump, run_pump,
}

-- What happened, the latest first, whether a stop is due, and the status that holds.
pub data Stops : List Happening → Place → Status → Type 0 where
  none_yet : Stops [] selecting (bare_status stopped)
  signal_came :
      {log : List Happening} {st : Status}
      → Stops log selecting st
      → Stops (signalled ∷ log) sending st
  stop_sent :
      {log : List Happening} {st : Status}
      → Stops log sending st
      → Stops (sent (record { cmd = stop; current_status = st }) ∷ log) selecting st
  status_changed :
      {log : List Happening} {st : Status} (st' : Status)
      → Stops log selecting st
      → Stops (changed st' ∷ log) selecting st'

pump_at-Stops :
    (place : Place) (o : Offer) (status : Status) (log : List Happening)
    → Stops log place status
    → let p = pump_at place o (record { place = place; status = status; log = log }) in
      Stops p.log p.place p.status
pump_at-Stops selecting signal st log h = signal_came h
pump_at-Stops selecting (change st') st log h = status_changed st' h
pump_at-Stops selecting deliver st log h = h
pump_at-Stops sending deliver st log h = stop_sent h
pump_at-Stops sending signal st log h = h
pump_at-Stops sending (change st') st log h = h

run_pump-Stops_from :
    (offers : List Offer) (p : Pump)
    → Stops p.log p.place p.status
    → Stops (run_pump offers p).log (run_pump offers p).place (run_pump offers p).status
unfolding run_pump pump
run_pump-Stops_from [] p h = h
run_pump-Stops_from (o ∷ offers) p h =
    run_pump-Stops_from offers (pump o p) (pump_at-Stops p.place o p.status p.log h)

-- On the console the handler gets stop requests only, one for each signal that was taken, each with
-- the status that the handler reported last.
pub run_pump-Stops :
    (offers : List Offer)
    → Stops (run_pump offers start).log (run_pump offers start).place (run_pump offers start).status
run_pump-Stops offers = run_pump-Stops_from offers start none_yet

pump_stuck : (o : Offer) (p : Pump) → o ≢ deliver → p.place ≡ sending → pump o p ≡ p
unfolding pump
pump_stuck signal p k e = ground arith
pump_stuck (change st) p k e = ground arith
pump_stuck deliver p k e = absurd (k refl)

-- Between a signal and the moment when the handler takes the stop request, no status change is
-- taken: a handler that does not read its requests before it reports again waits for ever, however
-- often it offers its status.
pub run_pump_stuck :
    (offers : List Offer) (p : Pump)
    → All (λ o. o ≢ deliver) offers
    → p.place ≡ sending
    → run_pump offers p ≡ p
unfolding run_pump
run_pump_stuck [] p h e = refl
run_pump_stuck (o ∷ offers) p (k, h) e = rw (pump_stuck o p k e) (run_pump_stuck offers p h e)
