-- ===== src/Svc/Threads/Stuck.antt =====
-- The control callback behind the end of the loop.
use winsvc.Prelude.{ℕ, ◌≡◌, some, List, arith}
use winsvc.Winapi.Types.{StringPtr}
use winsvc.Winapi.System.{Os}
use winsvc.Svc.Types.{CtlEvent, Service}
use winsvc.Svc.Threads.{
  RunPlace, blocked, looping, broken, stopping, ended, crashed, State, Step, register, refuse,
  release, begin, crash, call, serve, stop, set, leave, Reach, here, next,
}

-- The loop has been left.
abbrev pub IsPast : RunPlace → Type 0
IsPast blocked = ⊥
IsPast (looping args p) = ⊥
IsPast (broken args ec p) = Unit
IsPast (stopping args ec p) = Unit
IsPast (ended args ec p) = Unit
IsPast crashed = Unit

abbrev pub Holds : CtlEvent → State → Type 0
Holds e t = IsPast t.run × (t.callback ≡ some e)

module _ (s : Service) (argc : ℕ) (argv : List StringPtr) (os : Os) (e : CtlEvent) where
  Step-Holds : {t u : State} → Step s argc argv os t u → Holds e t → Holds e u
  Step-Holds (register h k m w) o = ground arith
  Step-Holds (refuse m w) o = ground arith
  Step-Holds (release m w) o = ground arith
  Step-Holds (begin args m g a w) o = ground arith
  Step-Holds (crash m g a w) o = ground arith
  Step-Holds (call e' k w) o = ground arith
  Step-Holds (serve args off p turn t' m k sel w) o = ground arith
  Step-Holds (stop args ec p m w) o = ground arith
  Step-Holds (set args ec p m w) o = ground arith
  Step-Holds (leave m k w) o = ground arith

-- A control callback that is in its send when the loop of run has been left, or run has panicked,
-- never returns: it holds its event in every state that follows.
pub threads-Holds :
    (s : Service) (argc : ℕ) (argv : List StringPtr) (os : Os) (e : CtlEvent) (t u : State)
    → Holds e t
    → Reach s argc argv os t u
    → Holds e u
threads-Holds s argc argv os e t t' h here = h
threads-Holds s argc argv os e t v h (next {u} r st) =
    Step-Holds s argc argv os e st (threads-Holds s argc argv os e t u h r)
