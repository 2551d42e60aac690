-- ===== src/Debug/Session.antt =====
-- debug/service.go: Run with a handler, as Svc/Handler.antt has it. Execute runs on the goroutine of
-- Run, next to the one that selects between signals and status changes, and that stays when Run
-- has returned. A channel without a buffer is a step of both sides; a signal may come at any time,
-- and one that comes while nobody receives it is dropped.
pub mod Console
pub mod Hangs
use winsvc.Prelude.{◌≡◌, Option, none, some}
use winsvc.Svc.Types.{ChangeRequest, ExitCode, Status, stop}
use winsvc.Svc.Handler.{Act, sends, receives, works, returns}
use winsvc.Debug.Pump.{Place, selecting, sending, signal, deliver, change, Pump, start, pump}

-- The handler, the exit code with which Execute returned, and the other goroutine.
pub record State (S : Type 0) : Type 0 where
  pub handler : S
  pub result : Option ExitCode
  pub pump : Pump

abbrev pub first_state : {S : Type 0} → S → State S
first_state h = record { handler = h; result = none; pump = start }

-- The request that is sent after a signal.
abbrev pub stop_request : Pump → ChangeRequest
stop_request p = record { cmd = stop; current_status = p.status }

module _ {S : Type 0} (May : S → Act S → Type 0) where
  pub data Step (t u : State S) : Type 0 where
    signalled : t.pump.place ≡ selecting → u ≡ record t { pump = pump signal t.pump } → Step t u
    delivered :
        (h : S)
        → t.pump.place ≡ sending
        → May t.handler (receives (stop_request t.pump) h)
        → u ≡ record t { handler = h; pump = pump deliver t.pump }
        → Step t u
    changed :
        (st : Status) (h : S)
        → t.pump.place ≡ selecting
        → May t.handler (sends st h)
        → u ≡ record t { handler = h; pump = pump (change st) t.pump }
        → Step t u
    worked : (h : S) → May t.handler (works h) → u ≡ record t { handler = h } → Step t u
    returned :
        (ec : ExitCode) (h : S)
        → t.result ≡ none
        → May t.handler (returns ec h)
        → u ≡ record t { handler = h; result = some ec }
        → Step t u

  pub data Reach (t : State S) : State S → Type 0 where
    here : Reach t t
    next : {u v : State S} → Reach t u → Step u v → Reach t v
