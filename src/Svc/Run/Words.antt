-- ===== src/Svc/Run/Words.antt =====
-- The numbers that run hands to Windows.
use winsvc.Prelude.{All-mono, ℕ, ◌<◌, ◌≡◌, ◌⊎◌, List, [], ◌∷◌, All, arith, some, none, Option}
use winsvc.Unicode.{GoString}
use winsvc.Winapi.Constants.{service_win32_own_process, error_service_specific_error}
use winsvc.Winapi.System.{Call, Os, Trace, Outcome, ok, err, panic, calls, resume, ignore, M}
use winsvc.Winapi.Types.{ServiceStatus, StringPtr}
use winsvc.Svc.Event.{wait}
use winsvc.Svc.Types.{ExitCode, Service, Status, bare_status, stopped}
use winsvc.Svc.Service.{service_status, update_status}
use winsvc.Svc.Loop.{
  Offer, control, deliver, change, exit, Round, start_round, Turn, go_on, break_loop, select,
  run_loop,
}
use winsvc.Svc.Loop.Rule.{Ends, Keeps, run_loop-Ends}
use winsvc.Svc.Run.{Ran, finish, arguments, serve, run}

-- A uint32.
abbrev pub IsWord : ℕ → Type 0
IsWord n = n < 0x100000000

-- A block as Windows reads it: its fields are of their types, the service is one of its own
-- process, and a service specific exit code stands only where the general one says so.
abbrev pub IsTyped : ServiceStatus → Type 0
IsTyped st =
    (st.service_type ≡ service_win32_own_process)
    × ((st.service_specific_exit_code ≡ 0) ⊎ (st.win32_exit_code ≡ error_service_specific_error))
    × IsWord st.current_state
    × IsWord st.controls_accepted
    × IsWord st.win32_exit_code
    × IsWord st.service_specific_exit_code
    × IsWord st.check_point
    × IsWord st.wait_hint

-- Every status block that was passed to Windows.
abbrev pub AllTyped : List Call → Type 0
AllTyped [] = Unit
AllTyped (Call.set_service_status h st ∷ cs) = IsTyped st × AllTyped cs
AllTyped (_ ∷ cs) = AllTyped cs

abbrev pub IsStatus : Status → Type 0
IsStatus st = IsWord st.state × IsWord st.accepts × IsWord st.check_point × IsWord st.wait_hint

-- What a peer of the loop offers is of the types of its channel.
abbrev pub IsOffer : Offer → Type 0
IsOffer (control e) = IsWord e.errno
IsOffer deliver = Unit
IsOffer (change st) = IsStatus st
IsOffer (exit ec) = IsWord ec.errno

service_status-IsTyped :
    (st : Status) (ec : ExitCode) → IsStatus st → IsWord ec.errno → IsTyped (service_status st ec)
unfolding service_status
service_status-IsTyped st ec h k = ground arith

-- GetLastError answers with a uint32.
abbrev pub AnswersWords : Os → Type 0
AnswersWords os = (t : Trace) (c : Call) → IsWord (os t c).e1

abbrev Typed : Round → Trace → Type 0
Typed p t = IsWord p.vars.ec.errno × AllTyped (calls t)

abbrev EndsTyped : ExitCode → Round → Trace → Type 0
EndsTyped ec p t = IsWord ec.errno × AllTyped (calls t)

module _ (s : Service) (os : Os) (answers : AnswersWords os) where
  select-Typed :
      (o : Offer)
      → IsOffer o
      → (p : Round) (t : Trace) → Typed p t
      → Ends Typed EndsTyped (select s o p os t)
  unfolding select update_status
  select-Typed (control e) h p t v = ground arith
  select-Typed deliver h p t v = ground arith
  select-Typed (change st) h p t v = ground (
    arith,
    service_status-IsTyped st p.vars.ec h (v.0),
    answers t (Call.set_service_status s.h (service_status st p.vars.ec)),
  )
  select-Typed (exit ec) h p t v = ground arith

  run_loop-Typed :
      (offers : List Offer) (t : Trace)
      → All IsOffer offers
      → AllTyped (calls t)
      → Ends Typed EndsTyped (run_loop s offers start_round os t)
  run_loop-Typed offers t h v =
      run_loop-Ends Typed EndsTyped s os offers
        (All-mono IsOffer (Keeps Typed EndsTyped s os) offers select-Typed h) start_round t
        (omega arith, v)

  finish-AllTyped :
      (args : List GoString) (x : Outcome Turn × Trace)
      → Ends Typed EndsTyped x
      → AllTyped (calls (resume x (finish s args) os).1)
  unfolding finish update_status
  finish-AllTyped args (ok (go_on p), t) (h, k) = k
  finish-AllTyped args (ok (break_loop ec p), t) (h, k) =
      ground (arith, service_status-IsTyped (bare_status stopped) ec (ground arith) h)
  finish-AllTyped args (err e, t) v = absurd v
  finish-AllTyped args (panic, t) v = absurd v

  resumed-AllTyped :
      (x : Outcome (Unit {0}) × Trace) (f : Unit {0} → M Ran)
      → AllTyped (calls x.1)
      → ((t : Trace) → AllTyped (calls t) → AllTyped (calls (f tt os t).1))
      → AllTyped (calls (resume x f os).1)
  resumed-AllTyped (ok u, t) f h k = k t h
  resumed-AllTyped (err e, t) f h k = h
  resumed-AllTyped (panic, t) f h k = h

  wait-AllTyped :
      (e : ℕ) (t : Trace) → AllTyped (calls t) → AllTyped (calls (ignore (wait e) os t).1)
  unfolding wait
  wait-AllTyped e t h = ground arith

serve-AllTyped :
    (s : Service) (offers : List Offer) (read : Option (List GoString)) (os : Os) (t : Trace)
    → AnswersWords os
    → All IsOffer offers
    → AllTyped (calls t)
    → AllTyped (calls (serve s offers read os t).1)
unfolding serve
serve-AllTyped s offers none os t answers h v = v
serve-AllTyped s offers (some args) os t answers h v =
    finish-AllTyped s os answers args (run_loop s offers start_round os t)
      (run_loop-Typed s os answers offers t h v)

-- Whatever happens to run, for offers of the types of their channels and a Windows whose error
-- numbers are of 32 bits: in every status block that it passes on each field is a uint32, the
-- service is one of its own process, and a service specific exit code stands only where the
-- general one says so.
pub run-AllTyped :
    (s : Service) (h argc : ℕ) (argv : List StringPtr) (offers : List Offer) (os : Os) (t : Trace)
    → AnswersWords os
    → All IsOffer offers
    → AllTyped (calls t)
    → AllTyped (calls (run s h argc argv offers os t).1)
unfolding run
run-AllTyped s h argc argv offers os t answers typed v =
    resumed-AllTyped s os answers (ignore (wait s.go_waits) os t) _
      (wait-AllTyped s os answers s.go_waits t v)
      (λ t' w.
        serve-AllTyped (record s { h = h }) offers (arguments argc argv) os t' answers typed w)
