-- ===== src/Svc/Run/Control.antt =====
-- The control callback and the events of a service over the whole of Run.
use winsvc.Prelude.{ℕ, ◌≡◌, ◌≢◌, ◌%◌, Bool, true, false, ◌==◌, List, ◌∷◌, arith}
use winsvc.Unicode.{GoString}
use winsvc.Winapi.System.{Os, Trace, Outcome, ok, err, panic, get_current_thread_id, ◌>>=◌}
use winsvc.Winapi.Resources.{Resource, event, live}
use winsvc.Svc.Types.{Service}
use winsvc.Svc.Loop.{control, Round, Turn, go_on, break_loop, select}
use winsvc.Svc.Run.{Callback, made, panicked, text, error, other, ctl_handler, run_service}

-- Two events more than before are held.
abbrev pub HoldsTwo : List Resource → List Resource → Type 0
HoldsTwo before (event b ∷ event a ∷ rest) = rest ≡ before
HoldsTwo before _ = ⊥

-- What is held where Run returned without an error.
abbrev pub EndsHolding : List Resource → Outcome (Unit {0}) × Trace → Type 0
EndsHolding before (ok u, t) = HoldsTwo before (live t)
EndsHolding before (err e, t) = Unit
EndsHolding before (panic, t) = Unit

-- Run never closes the events of its service: when it returns without an error, at the end of the
-- service, both are still held.
pub run_service-EndsHolding :
    (name : GoString) (svcmain : ℕ) (callback : Callback) (os : Os) (t : Trace)
    → EndsHolding (live t) (run_service name svcmain callback os t)
unfolding run_service
run_service-EndsHolding name svcmain (made cb) os t = ground arith
run_service-EndsHolding name svcmain (panicked (text v)) os t = ground arith
run_service-EndsHolding name svcmain (panicked (error v)) os t = ground arith
run_service-EndsHolding name svcmain (panicked other) os t = ground arith

-- The command is pending, or the loop is broken.
abbrev pub IsHandled : Bool → ℕ → Turn → Type 0
IsHandled true ctl (go_on p) = (p.vars.cmd ≡ ctl) × (p.vars.outch ≡ true) × (p.vars.inch ≡ false)
IsHandled false ctl (break_loop ec p) = (ec.errno ≢ 0) × (ec.is_svc_specific ≡ true)
IsHandled _ ctl _ = ⊥

abbrev pub EndsHandled : Bool → ℕ → Outcome Turn × Trace → Type 0
EndsHandled same ctl (ok turn, t) = IsHandled same ctl turn
EndsHandled same ctl (err e, t) = ⊥
EndsHandled same ctl (panic, t) = ⊥

-- Where the loop is open for a control event and its exit code is still service specific, the event
-- of a callback on the thread of Run becomes the pending command and closes the channel for more,
-- and one of a callback on another thread breaks the loop with a service specific exit code other
-- than 0.
pub select-ctl_handler :
    (s : Service) (tid ctl ev event_data ctx : ℕ) (p : Round) (os : Os) (t : Trace)
    → p.vars.inch ≡ true
    → p.vars.ec.is_svc_specific ≡ true
    → EndsHandled
        ((os t get_current_thread_id).r0 % 0x100000000 == tid)
        ctl
        ((do e ← ctl_handler tid ctl ev event_data ctx; select s (control e) p) os t)
unfolding ctl_handler select
select-ctl_handler s tid ctl ev event_data ctx p os t h k = ground arith
