-- ===== src/Winapi/Procs/Results.antt =====
-- What the results of the wrappers can be.
use winsvc.Prelude.{ℕ, ◌≢◌, arith}
use winsvc.Winapi.Types.{StringPtr, CreateServiceArgs}
use winsvc.Winapi.System.{Os, Trace, Error, errno, message, wrapped, Outcome, ok, err, panic}
use winsvc.Winapi.Procs

-- An error with a number other than 0.
abbrev pub IsFailure : Error → Type 0
IsFailure (errno n) = n ≢ 0
IsFailure (message m) = ⊥
IsFailure (wrapped m e) = ⊥

-- A handle other than 0, or an error with a number other than 0.
abbrev pub IsHandleResult : Outcome ℕ → Type 0
IsHandleResult (ok h) = h ≢ 0
IsHandleResult (err e) = IsFailure e
IsHandleResult panic = ⊥

-- Every wrapper that returns a handle returns one that is not 0, or an error whose number is not 0,
-- whatever Windows answers: a nil error never comes with the null handle.
pub handles-IsHandleResult :
    (os : Os) (t : Trace) (a b c : ℕ) (p q : StringPtr) (args : CreateServiceArgs)
    → IsHandleResult (Procs.create_event a b c p os t).0
      × IsHandleResult (Procs.register_event_source p q os t).0
      × IsHandleResult (Procs.open_sc_manager p q a os t).0
      × IsHandleResult (Procs.create_service args os t).0
      × IsHandleResult (Procs.open_service a p b os t).0
unfolding Procs.create_event Procs.register_event_source Procs.open_sc_manager Procs.create_service
    Procs.open_service
handles-IsHandleResult os t a b c p q args =
    (ground arith, ground arith, ground arith, ground arith, ground arith)
