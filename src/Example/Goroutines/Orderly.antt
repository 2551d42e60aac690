-- ===== src/Example/Goroutines/Orderly.antt =====
-- What Execute and its goroutines tell run, in whatever order.
use winsvc.Prelude.{◌≡◌, ◌⊎◌, List, [], ◌∷◌, Option, none, some, All}
use winsvc.Winapi.System.{Os, Trace, ok, calls}
use winsvc.Svc.Types.{Status, ExitCode, Service, bare_status, start_pending}
use winsvc.Svc.Loop.{Offer, start_round, run_loop}
use winsvc.Svc.Handler.{State}
use winsvc.Svc.Handler.Sequence.{IsReported, spoken, answer}
use winsvc.Svc.Handler.Alone.{latest}
use winsvc.Example.Goroutines.{Place, crashed, Execution, no_error}
use winsvc.Example.Goroutines.Standing.{
  IsActive, IsPending, IsOpened, Stands, WorkerIsPending, Answered,
}

abbrev IsOrderly : List Status → Option ExitCode → Execution → Type 0
IsOrderly told x t =
    Stands t.place t.workers told
    × All WorkerIsPending t.workers
    × All IsActive told
    × Answered x t.place told

-- StartPending comes first, and then Running with the accepted commands.
abbrev pub Opening : List Status → Type 0
Opening told = (told ≡ []) ⊎ (told ≡ bare_status start_pending ∷ []) ⊎ IsOpened told

-- Where Execute has returned, and no panic came behind that, the exit code is 0, and the last
-- status is StopPending.
abbrev pub Closing : List Status → Option ExitCode → Place → Type 0
Closing told none place = Unit
Closing told (some ec) place =
    (ec ≡ no_error) × ((place ≡ crashed) ⊎ (IsOpened told × IsPending (latest told)))

-- The loop is that of run over some offers, and the statuses among them are these.
abbrev pub TellsOrderly : Service → Os → Trace → State Execution → Type 0
TellsOrderly s os t u =
    (offers : List Offer) × (run_loop s offers start_round os t ≡ (ok u.turn, u.trace))
    × IsReported s (spoken offers []) (calls t) (calls u.trace)
    × Opening (spoken offers [])
    × All IsActive (spoken offers [])
    × Closing (spoken offers []) (answer u.phase) u.handler.place
