-- ===== src/Svc/Run/Ending.antt =====
-- How run ends.
use mathlib.Core.List.{Memᴰ}
use winsvc.Prelude.{ℕ, ◌≡◌, ◌≢◌, some, List, ◌∷◌, arith}
use winsvc.Unicode.{GoString}
use winsvc.Winapi.System.{
  Call, set_event, set_service_status, Os, Trace, Outcome, ok, err, panic, resume, ignore, M, calls,
}
use winsvc.Winapi.Types.{StringPtr}
use winsvc.Svc.Event.{wait}
use winsvc.Svc.Types.{Service, ExitCode, bare_status, stopped}
use winsvc.Svc.Service.{service_status, update_status}
use winsvc.Svc.Loop.{Offer, exit, start_round, Turn, go_on, break_loop, run_loop}
use winsvc.Svc.Loop.Rule.{Ends}
use winsvc.Svc.Loop.Breaks.{Nowhere, Broken, run_loop_breaks}
use winsvc.Svc.Run.{Ran, waiting, finished, finish, arguments, serve, run}

-- It finished with these arguments, and after the calls before it made two more: the first told
-- Windows that the service is stopped, with the exit code of the loop, and the second released the
-- thread of the service's main function.
abbrev pub EndsStopped : Service → ℕ → List GoString → List Call → Outcome Ran × Trace → Type 0
EndsStopped s h args before (ok (finished args' ec p), t) =
    (args' ≡ args)
    × (calls t
        ≡ set_event s.c_waits
          ∷ set_service_status h (service_status (bare_status stopped) ec)
          ∷ before)
EndsStopped s h args before (ok (waiting args' p), t) = ⊥
EndsStopped s h args before (err e, t) = ⊥
EndsStopped s h args before (panic, t) = ⊥

pub ignore-wait : (e : ℕ) (os : Os) (t : Trace) → (ignore (wait e) os t).0 ≡ ok tt
unfolding wait
ignore-wait e os t = ground arith

pub resume_ok :
    {A B : Type 0} (x : Outcome A × Trace) (a : A) (f : A → M B) (os : Os)
    → x.0 ≡ ok a
    → resume x f os ≡ f a os x.1
resume_ok (ok b, t) a f os e = cc
resume_ok (err e', t) a f os e = absurd (cc)
resume_ok (panic, t) a f os e = absurd (cc)

module _ (s : Service) (h : ℕ) (args : List GoString) (os : Os) (has_handle : h ≢ 0) where
  finish-EndsStopped :
      (x : Outcome Turn × Trace)
      → Ends Nowhere Broken x
      → EndsStopped s h args (calls x.1) (resume x (finish (record s { h = h }) args) os)
  unfolding finish update_status
  finish-EndsStopped (ok (go_on p), t) v = absurd v
  finish-EndsStopped (ok (break_loop ec p), t) v = ground arith
  finish-EndsStopped (err e, t) v = absurd v
  finish-EndsStopped (panic, t) v = absurd v

  -- The trace at the end of the loop of run.
  abbrev pub looped : List Offer → Trace → Trace
  looped offers t =
      (run_loop (record s { h = h }) offers start_round os (ignore (wait s.go_waits) os t).1).1

  serve-EndsStopped :
      (offers : List Offer) (ec : ExitCode) (t : Trace)
      → Memᴰ (exit ec) offers
      → EndsStopped s h args
          (calls (run_loop (record s { h = h }) offers start_round os t).1)
          (serve (record s { h = h }) offers (some args) os t)
  unfolding serve
  serve-EndsStopped offers ec t m =
      finish-EndsStopped (run_loop (record s { h = h }) offers start_round os t)
        (run_loop_breaks (record s { h = h }) ec offers start_round os t m)

  -- If Windows gave a status handle, the arguments can be read and the handler offers an exit
  -- code, then run finishes. The handler got the arguments, and the last two calls tell Windows
  -- that the service is stopped, with the exit code of the loop, and release the C thread.
  pub run-EndsStopped :
      (offers : List Offer) (ec : ExitCode) (argc : ℕ) (argv : List StringPtr) (t : Trace)
      → arguments argc argv ≡ some args
      → Memᴰ (exit ec) offers
      → EndsStopped s h args (calls (looped offers t)) (run s h argc argv offers os t)
  unfolding run
  run-EndsStopped offers ec argc argv t e m =
      rw (resume_ok (ignore (wait s.go_waits) os t) tt _ os (ignore-wait s.go_waits os t), e)
        (serve-EndsStopped offers ec (ignore (wait s.go_waits) os t).1 m)
