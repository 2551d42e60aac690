-- ===== src/Svc/Threads.antt =====
-- svc/sys_amd64.s and svc/service.go: the threads of a service, one step at a time. The service's
-- main function registers the control callback, releases the goroutine run by the first event and
-- waits for the second; run goes through its loop and its end; the callback is in its send until
-- the loop takes the event. The two events are those of Windows: auto-reset, and a wait returns
-- only where its event is set. The trace is that of the goroutine run.
pub mod Order
pub mod Sequence
pub mod Stuck
use winsvc.Prelude.{
  ℕ, ◌≡◌, ◌≢◌, Bool, true, false, Option, none, some, List, [], ◌∷◌, if◌then◌else◌,
}
use winsvc.Unicode.{GoString}
use winsvc.Winapi.Types.{StringPtr}
use winsvc.Winapi.System.{Os, Trace, ok, ignore}
use winsvc.Svc.Event
use winsvc.Svc.Loop.{
  Offer, control, deliver, change, exit, Round, start_round, Turn, go_on, break_loop, select,
}
use winsvc.Svc.Run.{arguments}
use winsvc.Svc.Service.{update_status}
use winsvc.Svc.Types.{CtlEvent, ExitCode, Service, bare_status, stopped}

-- servicemain: before it registers the callback, before it sets the first event, in its wait for
-- the second, and returned.
pub data MainPlace : Type 0 where
  entered : MainPlace
  registered : MainPlace
  awaiting : MainPlace
  back : MainPlace

-- run: in its wait, in the loop, behind the loop, behind the last report, and returned. It panics
-- where the arguments cannot be read.
pub data RunPlace : Type 0 where
  blocked : RunPlace
  looping : List GoString → Round → RunPlace
  broken : List GoString → ExitCode → Round → RunPlace
  stopping : List GoString → ExitCode → Round → RunPlace
  ended : List GoString → ExitCode → Round → RunPlace
  crashed : RunPlace

pub record State : Type 0 where
  pub main : MainPlace
  pub run : RunPlace
  pub callback : Option CtlEvent
  pub handle : ℕ
  pub go_set : Bool
  pub c_set : Bool
  pub trace : Trace

abbrev pub first_state : Trace → State
first_state t = record {
  main = entered;
  run = blocked;
  callback = none;
  handle = 0;
  go_set = false;
  c_set = false;
  trace = t;
}

-- The callback offers the event that it holds; the handler may offer at any time.
abbrev pub IsOffered : State → Offer → Type 0
IsOffered t (control e) = t.callback ≡ some e
IsOffered t deliver = Unit
IsOffered t (change c) = Unit
IsOffered t (exit ec) = Unit

-- The callback returns where its event was received.
abbrev pub callback_after : Option CtlEvent → Round → Offer → Option CtlEvent
callback_after held p (control e) = if p.vars.inch then none else held
callback_after held p deliver = held
callback_after held p (change c) = held
callback_after held p (exit ec) = held

abbrev pub after_turn : List GoString → Turn → RunPlace
after_turn args (go_on p) = looping args p
after_turn args (break_loop ec p) = broken args ec p

-- The service with the status handle that servicemain stored.
abbrev pub with_handle : Service → ℕ → Service
with_handle s h = record s { h = h }

module _ (s : Service) (argc : ℕ) (argv : List StringPtr) (os : Os) where
  pub data Step (t u : State) : Type 0 where
    register :
        (h : ℕ)
        → h ≢ 0
        → t.main ≡ entered
        → u ≡ record t { main = registered; handle = h }
        → Step t u
    refuse : t.main ≡ entered → u ≡ record t { main = back } → Step t u
    release : t.main ≡ registered → u ≡ record t { main = awaiting; go_set = true } → Step t u
    begin :
        (args : List GoString)
        → t.run ≡ blocked
        → t.go_set ≡ true
        → arguments argc argv ≡ some args
        → u ≡ record t { run = looping args start_round; go_set = false }
        → Step t u
    crash :
        t.run ≡ blocked
        → t.go_set ≡ true
        → arguments argc argv ≡ none
        → u ≡ record t { run = crashed; go_set = false }
        → Step t u
    call : (e : CtlEvent) → t.callback ≡ none → u ≡ record t { callback = some e } → Step t u
    serve :
        (args : List GoString) (o : Offer) (p : Round) (turn : Turn) (t' : Trace)
        → t.run ≡ looping args p
        → IsOffered t o
        → select (with_handle s t.handle) o p os t.trace ≡ (ok turn, t')
        → u ≡ record t {
          run = after_turn args turn;
          callback = callback_after t.callback p o;
          trace = t';
        }
        → Step t u
    stop :
        (args : List GoString) (ec : ExitCode) (p : Round)
        → t.run ≡ broken args ec p
        → u ≡ record t {
          run = stopping args ec p;
          trace =
              (ignore
                (update_status (with_handle s t.handle) (bare_status stopped) ec)
                os
                t.trace).1;
        }
        → Step t u
    set :
        (args : List GoString) (ec : ExitCode) (p : Round)
        → t.run ≡ stopping args ec p
        → u ≡ record t {
          run = ended args ec p;
          c_set = true;
          trace = (ignore (Event.set s.c_waits) os t.trace).1;
        }
        → Step t u
    leave :
        t.main ≡ awaiting → t.c_set ≡ true → u ≡ record t { main = back; c_set = false } → Step t u

  pub data Reach (t : State) : State → Type 0 where
    here : Reach t t
    next : {u v : State} → Reach t u → Step u v → Reach t v
