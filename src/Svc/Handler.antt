-- ===== src/Svc/Handler.antt =====
-- svc/service.go: run with a handler, which Execute runs in a goroutine of its own. A handler is a
-- state, of its goroutines and its data, with what it may do next: nothing is assumed of it. What
-- goroutines that it started do when Execute has returned is a part of it. A channel without a
-- buffer is a step of both sides; the control callback may come at any time.
pub mod Alone
pub mod Progress
pub mod Sequence
pub mod Advance
use winsvc.Prelude.{◌≡◌, Bool, true}
use winsvc.Winapi.System.{Os, Trace, ok}
use winsvc.Svc.Types.{ChangeRequest, CtlEvent, ExitCode, Service, Status}
use winsvc.Svc.Loop.{
  Offer, control, deliver, change, exit, Round, start_round, Turn, go_on, select, is_ready,
}

-- A handler in a state may send a status, receive a request, do something else or return from
-- Execute.
pub data Act (S : Type 0) : Type 0 where
  sends : Status → S → Act S
  receives : ChangeRequest → S → Act S
  works : S → Act S
  returns : ExitCode → S → Act S

-- The goroutine of Execute: in it, in the send of the exit code, or at its end.
pub data Phase : Type 0 where
  executing : Phase
  exiting : ExitCode → Phase
  over : ExitCode → Phase

pub record State (S : Type 0) : Type 0 where
  pub handler : S
  pub phase : Phase
  pub turn : Turn
  pub trace : Trace

abbrev pub first_state : {S : Type 0} → S → Trace → State S
first_state h t = record { handler = h; phase = executing; turn = go_on start_round; trace = t }

-- The request that the loop has for the handler.
abbrev pub request_of : Round → ChangeRequest
request_of p = record { cmd = p.vars.cmd; current_status = p.vars.status }

module _ {S : Type 0} (May : S → Act S → Type 0) (s : Service) (os : Os) where
  -- The loop is ready for an offer and takes it, and the handler goes on.
  abbrev pub Takes : State S → Round → Offer → S → Phase → State S → Type 0
  Takes t p o h phase u =
      (is_ready p.vars o ≡ true)
      × (turn : Turn) × (t' : Trace) × (select s o p os t.trace ≡ (ok turn, t'))
      × (u ≡ record { handler = h; phase = phase; turn = turn; trace = t' })

  pub data Step (t u : State S) : Type 0 where
    controlled :
        (p : Round) (e : CtlEvent)
        → t.turn ≡ go_on p
        → Takes t p (control e) t.handler t.phase u
        → Step t u
    delivered :
        (p : Round) (h : S)
        → t.turn ≡ go_on p
        → May t.handler (receives (request_of p) h)
        → Takes t p deliver h t.phase u
        → Step t u
    changed :
        (p : Round) (st : Status) (h : S)
        → t.turn ≡ go_on p
        → May t.handler (sends st h)
        → Takes t p (change st) h t.phase u
        → Step t u
    exited :
        (p : Round) (ec : ExitCode)
        → t.turn ≡ go_on p
        → t.phase ≡ exiting ec
        → Takes t p (exit ec) t.handler (over ec) u
        → Step t u
    worked : (h : S) → May t.handler (works h) → u ≡ record t { handler = h } → Step t u
    returned :
        (ec : ExitCode) (h : S)
        → t.phase ≡ executing
        → May t.handler (returns ec h)
        → u ≡ record t { handler = h; phase = exiting ec }
        → Step t u

  pub data Reach (t : State S) : State S → Type 0 where
    here : Reach t t
    next : {u v : State S} → Reach t u → Step u v → Reach t v
