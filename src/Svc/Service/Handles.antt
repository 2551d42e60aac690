-- ===== src/Svc/Service/Handles.antt =====
-- The two events of a service, from newService to close.
use winsvc.Prelude.{◌≡◌, List, ◌∷◌, arith}
use winsvc.Unicode.{GoString}
use winsvc.Winapi.System.{Os, Trace, Outcome, ok, err, panic, ◌>>=◌}
use winsvc.Winapi.Resources.{Resource, event, live}
use winsvc.Svc.Types.{Service}
use winsvc.Svc.Service.{new_service, close}

-- What is held after newService: both events of a service that it returns, and nothing new else.
abbrev pub held : Outcome Service → List Resource → List Resource
held (ok s) before = event s.go_waits ∷ event s.c_waits ∷ before
held (err e) before = before
held panic before = before

-- newService returns a service that holds its two new events, or fails and holds neither, whatever
-- Windows answers.
pub live-new_service :
    (name : GoString) (os : Os) (t : Trace)
    → live (new_service name os t).1 ≡ held (new_service name os t).0 (live t)
unfolding new_service
live-new_service name os t = ground arith

-- Made and then closed, a service leaves nothing behind, whatever Windows answers.
pub live-close :
    (name : GoString) (os : Os) (t : Trace) → live ((new_service name >>= close) os t).1 ≡ live t
unfolding new_service close
live-close name os t = ground arith
