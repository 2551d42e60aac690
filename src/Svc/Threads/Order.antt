-- ===== src/Svc/Threads/Order.antt =====
-- The order that the two events enforce between the threads.
use winsvc.Prelude.{ℕ, ◌≡◌, ◌≢◌, refl, Bool, true, false, Option, none, some, List, [], ◌∷◌, arith}
use winsvc.Winapi.Types.{StringPtr}
use winsvc.Winapi.System.{Call, Os, Trace, ignore}
use winsvc.Svc.Event
use winsvc.Svc.Types.{Service, ExitCode, bare_status, stopped}
use winsvc.Svc.Service.{update_status, service_status}
use winsvc.Svc.Threads.{
  MainPlace, entered, registered, awaiting, back, RunPlace, blocked, looping, broken, stopping,
  ended, crashed, State, first_state, Step, register, refuse, release, begin, crash, call, serve,
  stop, set, leave, Reach, here, next,
}

-- The state in the latest report to Windows.
abbrev pub last_report : Trace → Option ℕ
last_report [] = none
last_report ((Call.set_service_status h st, r) ∷ t) = some st.current_state
last_report (_ ∷ t) = last_report t

-- Which places go together, with the status handle, the two events and what was reported.
abbrev pub Ordered :
    MainPlace → RunPlace → (handle : ℕ) → (go_set c_set : Bool) → (reported : Option ℕ) → Type 0
Ordered entered blocked h go c r = (h ≡ 0) × (go ≡ false) × (c ≡ false)
Ordered registered blocked h go c r = (h ≢ 0) × (go ≡ false) × (c ≡ false)
Ordered awaiting blocked h go c r = (h ≢ 0) × (go ≡ true) × (c ≡ false)
Ordered awaiting (looping args p) h go c r = (h ≢ 0) × (go ≡ false) × (c ≡ false)
Ordered awaiting (broken args ec p) h go c r = (h ≢ 0) × (go ≡ false) × (c ≡ false)
Ordered awaiting (stopping args ec p) h go c r =
    (h ≢ 0) × (go ≡ false) × (c ≡ false) × (r ≡ some stopped)
Ordered awaiting (ended args ec p) h go c r =
    (h ≢ 0) × (go ≡ false) × (c ≡ true) × (r ≡ some stopped)
Ordered awaiting crashed h go c r = (h ≢ 0) × (go ≡ false) × (c ≡ false)
Ordered back (ended args ec p) h go c r = (h ≢ 0) × (go ≡ false) × (c ≡ false) × (r ≡ some stopped)
Ordered back blocked h go c r = (h ≡ 0) × (go ≡ false) × (c ≡ false)
Ordered _ _ h go c r = ⊥

abbrev pub IsOrdered : State → Type 0
IsOrdered t = Ordered t.main t.run t.handle t.go_set t.c_set (last_report t.trace)

last_report-update_status :
    (s : Service) (ec : ExitCode) (os : Os) (t : Trace)
    → s.h ≢ 0
    → last_report (ignore (update_status s (bare_status stopped) ec) os t).1 ≡ some stopped
unfolding update_status service_status
last_report-update_status s ec os t h = ground arith

last_report-set :
    (e : ℕ) (os : Os) (t : Trace) → last_report (ignore (Event.set e) os t).1 ≡ last_report t
unfolding Event.set
last_report-set e os t = ground arith

module _ (s : Service) (argc : ℕ) (argv : List StringPtr) (os : Os) where
  pub Step-IsOrdered : {t u : State} → Step s argc argv os t u → IsOrdered t → IsOrdered u
  Step-IsOrdered (register h k e w) o = ground arith
  Step-IsOrdered (refuse e w) o = ground arith
  Step-IsOrdered (release e w) o = ground arith
  Step-IsOrdered (begin args e g a w) o = ground arith
  Step-IsOrdered (crash e g a w) o = ground arith
  Step-IsOrdered (call e k w) o = ground arith
  Step-IsOrdered (serve args off p turn t' e k sel w) o = ground arith
  Step-IsOrdered {t} (stop args ec p e w) o =
      ground (arith, last_report-update_status (record s { h = t.handle }) ec os t.trace)
  Step-IsOrdered {t} (set args ec p e w) o = ground (arith, last_report-set s.c_waits os t.trace)
  Step-IsOrdered (leave e k w) o = ground arith

  pub Reach-IsOrdered : {t u : State} → Reach s argc argv os t u → IsOrdered t → IsOrdered u
  Reach-IsOrdered here o = o
  Reach-IsOrdered (next r st) o = Step-IsOrdered st (Reach-IsOrdered r o)

-- In every state that the threads of a service can reach, their places go together: run leaves its
-- wait only after the service's main function has stored a status handle other than 0, each event
-- is set only between its two sides, and where the main function returned it was refused or run
-- has ended, whose latest report to Windows is the state stopped.
pub threads-IsOrdered :
    (s : Service) (argc : ℕ) (argv : List StringPtr) (os : Os) (t : Trace) (u : State)
    → Reach s argc argv os (first_state t) u
    → IsOrdered u
threads-IsOrdered s argc argv os t u r = Reach-IsOrdered s argc argv os r (refl, refl, refl)
