-- ===== src/Svc/Handler/Alone.antt =====
-- svc/service.go: a handler by itself, as its peers see it.
use winsvc.Prelude.{◌≡◌, List, [], ◌∷◌, Option, none, some}
use winsvc.Svc.Types.{ChangeRequest, ExitCode, Status, bare_status, stopped}
use winsvc.Svc.Handler.{Act, sends, receives, works, returns}

-- The status that holds behind those that were sent, the latest first.
abbrev pub latest : List Status → Status
latest [] = bare_status stopped
latest (st ∷ told) = st

module _ {S : Type 0} (May : S → Act S → Type 0) (h₀ : S) where
  -- A run of the handler by itself, with the requests that it was given and the statuses that it
  -- sent, the latest first, and what Execute returned. A request carries the status that holds.
  pub data Runs : List ChangeRequest → List Status → S → Option ExitCode → Type 0 where
    start : Runs [] [] h₀ none
    send :
        {cs : List ChangeRequest} {told : List Status} {h : S} {x : Option ExitCode} (st : Status)
        (h' : S)
        → May h (sends st h')
        → Runs cs told h x
        → Runs cs (st ∷ told) h' x
    receive :
        {cs : List ChangeRequest} {told : List Status} {h : S} {x : Option ExitCode}
        (c : ChangeRequest) (h' : S)
        → c.current_status ≡ latest told
        → May h (receives c h')
        → Runs cs told h x
        → Runs (c ∷ cs) told h' x
    work :
        {cs : List ChangeRequest} {told : List Status} {h : S} {x : Option ExitCode} (h' : S)
        → May h (works h')
        → Runs cs told h x
        → Runs cs told h' x
    leave :
        {cs : List ChangeRequest} {told : List Status} {h : S} (ec : ExitCode) (h' : S)
        → May h (returns ec h')
        → Runs cs told h none
        → Runs cs told h' (some ec)
