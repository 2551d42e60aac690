-- ===== src/Svc/Run/Told.antt =====
-- What run tells Windows, from its start to its end.
use winsvc.Prelude.{ℕ, ◌≡◌, ◌≢◌, refl, Option, none, some, List, [], ◌∷◌, ◌++◌, map, arith}
use winsvc.Unicode.{GoString}
use winsvc.Winapi.Constants.{infinite}
use winsvc.Winapi.System.{
  Call, set_event, set_service_status, wait_for_single_object, Os, Trace, Outcome, ok, err, panic,
  resume, ignore, calls,
}
use winsvc.Winapi.Types.{ServiceStatus, StringPtr}
use winsvc.Svc.Event.{wait}
use winsvc.Svc.Types.{CtlEvent, ExitCode, Service, Status, bare_status, stopped}
use winsvc.Svc.Service.{service_status, update_status}
use winsvc.Svc.Loop.{
  start, Offer, control, deliver, change, exit, Round, start_round, Turn, go_on, break_loop, select,
  run_loop,
}
use winsvc.Svc.Loop.Rule.{Ends, Ends-next_round}
use winsvc.Svc.Loop.Breaks.{Nowhere}
use winsvc.Svc.Loop.Calls.{report}
use winsvc.Svc.Run.{Ran, waiting, finished, finish, arguments, serve, run}
use winsvc.Svc.Run.Ending.{ignore-wait, resume_ok}

-- What a handler sends on its two channels: the statuses in front of its exit code, the latest
-- first and in front of those of the argument, and that code.
abbrev pub sent_by : List Offer → List Status → Option (List Status × ExitCode)
sent_by [] told = none
sent_by (control e ∷ offers) told = sent_by offers told
sent_by (deliver ∷ offers) told = sent_by offers told
sent_by (change st ∷ offers) told = sent_by offers (st ∷ told)
sent_by (exit ec ∷ offers) told = some (told, ec)

-- Every control up to the exit code came on the thread of Run.
abbrev pub SameThread : List Offer → Type 0
SameThread [] = Unit
SameThread (control e ∷ offers) = (e.errno ≡ 0) × SameThread offers
SameThread (deliver ∷ offers) = SameThread offers
SameThread (change st ∷ offers) = SameThread offers
SameThread (exit ec ∷ offers) = Unit

-- Windows takes every status report.
abbrev pub Accepts : Os → Type 0
Accepts os = (t : Trace) (h : ℕ) (st : ServiceStatus) → (os t (set_service_status h st)).r0 ≢ 0

module _ (s : Service) (os : Os) (accepts : Accepts os) (has_handle : s.h ≢ 0)
    (before : List Call) where
  abbrev Telling : List Status → Round → Trace → Type 0
  Telling told p t = (p.vars.ec ≡ start.ec) × (calls t ≡ map (report s) told ++ before)

  abbrev Told : List Status → ExitCode → ExitCode → Round → Trace → Type 0
  Told told ec ec' p t = (ec' ≡ ec) × (calls t ≡ map (report s) told ++ before)

  select-control :
      (e : CtlEvent) (told all : List Status) (ec : ExitCode) (p : Round) (t : Trace)
      → e.errno ≡ 0
      → Telling told p t
      → Ends (Telling told) (Told all ec) (select s (control e) p os t)
  unfolding select
  select-control e told all ec p t k v = ground arith

  select-deliver :
      (told all : List Status) (ec : ExitCode) (p : Round) (t : Trace)
      → Telling told p t
      → Ends (Telling told) (Told all ec) (select s deliver p os t)
  unfolding select
  select-deliver told all ec p t v = ground arith

  select-change :
      (st : Status) (told all : List Status) (ec : ExitCode) (p : Round) (t : Trace)
      → Telling told p t
      → Ends (Telling (st ∷ told)) (Told all ec) (select s (change st) p os t)
  unfolding select update_status
  select-change st told all ec p t v = ground (arith, accepts t s.h (service_status st start.ec))

  select-exit :
      (told all : List Status) (e ec : ExitCode) (p : Round) (t : Trace)
      → sent_by (exit e ∷ []) told ≡ some (all, ec)
      → Telling told p t
      → Ends Nowhere (Told all ec) (select s (exit e) p os t)
  unfolding select
  select-exit told all e ec p t sent v = ground arith

  run_loop-Told :
      (offers : List Offer) (told all : List Status) (ec : ExitCode) (p : Round) (t : Trace)
      → SameThread offers
      → sent_by offers told ≡ some (all, ec)
      → Telling told p t
      → Ends Nowhere (Told all ec) (run_loop s offers p os t)
  unfolding run_loop
  run_loop-Told [] told all ec p t same sent v = absurd (cc)
  run_loop-Told (control e ∷ offers) told all ec p t (k, same) sent v =
      Ends-next_round (Telling told) Nowhere (Told all ec) os (run_loop s offers)
        (λ p' t' w. run_loop-Told offers told all ec p' t' same sent w)
        (select s (control e) p os t) (select-control e told all ec p t k v)
  run_loop-Told (deliver ∷ offers) told all ec p t same sent v =
      Ends-next_round (Telling told) Nowhere (Told all ec) os (run_loop s offers)
        (λ p' t' w. run_loop-Told offers told all ec p' t' same sent w) (select s deliver p os t)
        (select-deliver told all ec p t v)
  run_loop-Told (change st ∷ offers) told all ec p t same sent v =
      Ends-next_round (Telling (st ∷ told)) Nowhere (Told all ec) os (run_loop s offers)
        (λ p' t' w. run_loop-Told offers (st ∷ told) all ec p' t' same sent w)
        (select s (change st) p os t) (select-change st told all ec p t v)
  run_loop-Told (exit e ∷ offers) told all ec p t same sent v =
      Ends-next_round Nowhere Nowhere (Told all ec) os (run_loop s offers) (λ p' t' w. absurd w)
        (select s (exit e) p os t) (select-exit told all e ec p t sent v)

-- It finished with these arguments and this exit code, and made these calls.
abbrev pub EndsTelling : List GoString → ExitCode → List Call → Outcome Ran × Trace → Type 0
EndsTelling args ec told (ok (finished args' ec' p), t) =
    (args' ≡ args) × (ec' ≡ ec) × (calls t ≡ told)
EndsTelling args ec told (ok (waiting args' p), t) = ⊥
EndsTelling args ec told (err e, t) = ⊥
EndsTelling args ec told (panic, t) = ⊥

-- The calls of a run, the latest first, in front of those before it: the wait, a report for each
-- status, the last report with the exit code, and the release of the C thread.
abbrev pub told_calls : Service → ExitCode → List Status → List Call → List Call
told_calls s ec told before =
    set_event s.c_waits
    ∷ set_service_status s.h (service_status (bare_status stopped) ec)
    ∷ (map (report s) told ++ wait_for_single_object s.go_waits infinite ∷ before)

module _ (s : Service) (os : Os) (accepts : Accepts os) (has_handle : s.h ≢ 0) where
  finish-EndsTelling :
      (args : List GoString) (before : List Call) (told : List Status) (ec : ExitCode)
      (x : Outcome Turn × Trace)
      → Ends Nowhere (Told s os accepts has_handle before told ec) x
      → EndsTelling args ec
          (set_event s.c_waits
            ∷ set_service_status s.h (service_status (bare_status stopped) ec)
            ∷ (map (report s) told ++ before))
          (resume x (finish s args) os)
  unfolding finish update_status
  finish-EndsTelling args before told ec (ok (go_on p), t) v = absurd v
  finish-EndsTelling args before told ec (ok (break_loop ec' p), t) v = ground arith
  finish-EndsTelling args before told ec (err e, t) v = absurd v
  finish-EndsTelling args before told ec (panic, t) v = absurd v

calls-wait :
    (e : ℕ) (os : Os) (t : Trace)
    → calls (ignore (wait e) os t).1 ≡ wait_for_single_object e infinite ∷ calls t
unfolding wait
calls-wait e os t = ground arith

-- The contract of run, from what its handler sends. Where Windows gave a status handle and takes
-- every report, the arguments can be read, the handler sends an exit code and every control before
-- it came on the thread of Run, run passes the arguments on and finishes with the handler's exit
-- code. All that it asks of Windows is the wait, a report of each status that the handler sent, in
-- that order, the report that the service is stopped with that exit code, and the release of the
-- C thread.
pub run-EndsTelling :
    (s : Service) (h argc : ℕ) (argv : List StringPtr) (offers : List Offer) (os : Os) (t : Trace)
    (args : List GoString) (told : List Status) (ec : ExitCode)
    → Accepts os
    → h ≢ 0
    → SameThread offers
    → arguments argc argv ≡ some args
    → sent_by offers [] ≡ some (told, ec)
    → EndsTelling args ec
        (told_calls (record s { h = h }) ec told (calls t))
        (run s h argc argv offers os t)
unfolding run serve
run-EndsTelling s h argc argv offers os t args told ec accepts handle same read sent =
    rw (resume_ok (ignore (wait s.go_waits) os t) tt _ os (ignore-wait s.go_waits os t), read)
      (finish-EndsTelling s' os accepts handle args before told ec
        (run_loop s' offers start_round os t')
        (run_loop-Told s' os accepts handle before offers [] told ec start_round t' same sent
          (refl, calls-wait s.go_waits os t)))
  where
    s' : Service
    s' = record s { h = h }

    t' : Trace
    t' = (ignore (wait s.go_waits) os t).1

    before : List Call
    before = wait_for_single_object s.go_waits infinite ∷ calls t
