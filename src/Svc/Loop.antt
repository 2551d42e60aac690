-- ===== src/Svc/Loop.antt =====
-- svc/service.go: the loop of run. It is one goroutine that selects among four channels; the
-- order in which its peers become ready is a list of offers. An offer on a channel that is nil at
-- its turn does not fire: its peer stays blocked, and offers again later in the list.
pub mod Rule
pub mod Mailbox
pub mod Breaks
pub mod Calls
use winsvc.Prelude.{
  ℕ, Bool, true, false, not, Option, none, some, List, [], ◌∷◌, ◌==◌, if◌then◌else◌,
}
use winsvc.Winapi.Constants.{application_error}
use winsvc.Winapi.System.{
  Error, errno, message, wrapped, Os, Trace, M, return, resume, ◌>>=◌, Attempt, returned, failed,
  attempt,
}
use winsvc.Svc.Service.{update_status}
use winsvc.Svc.Types.{Status, bare_status, ChangeRequest, CtlEvent, ExitCode, Service, stopped}

abbrev pub sys_err_set_service_status_failed : ℕ
sys_err_set_service_status_failed = application_error

abbrev pub sys_err_new_thread_in_callback : ℕ
sys_err_new_thread_in_callback = 0x20000001

-- The variables of the loop. `inch` and `outch` say whether that channel is set or nil.
pub record Vars : Type 0 where
  pub status : Status
  pub ec : ExitCode
  pub outch : Bool
  pub inch : Bool
  pub cmd : ℕ

abbrev pub start : Vars
start = record {
  status = bare_status stopped;
  ec = record { is_svc_specific = true; errno = 0 };
  outch = false;
  inch = true;
  cmd = 0;
}

-- A peer that is ready: the control callback with an event, the handler to receive a request,
-- the handler with a status change, and the handler with its exit code.
pub data Offer : Type 0 where
  control : CtlEvent → Offer
  deliver : Offer
  change : Status → Offer
  exit : ExitCode → Offer

-- What the loop did, as its peers see it.
pub data Happening : Type 0 where
  received : ℕ → Happening
  sent : ChangeRequest → Happening
  reported : Status → Happening

-- The loop between two rounds, with what happened so far, the latest first.
pub record Round : Type 0 where
  pub vars : Vars
  pub log : List Happening

abbrev pub start_round : Round
start_round = record { vars = start; log = [] }

pub data Turn : Type 0 where
  go_on : Round → Turn
  break_loop : ExitCode → Round → Turn

abbrev pub is_ready : Vars → Offer → Bool
is_ready v (control r) = v.inch
is_ready v deliver = v.outch
is_ready v (change c) = true
is_ready v (exit ec) = true

-- The errno of an error, if it is one; the best suitable number otherwise.
abbrev pub error_number : Error → ℕ
error_number (errno n) = n
error_number (message m) = sys_err_set_service_status_failed
error_number (wrapped m e) = sys_err_set_service_status_failed

abbrev on_control : CtlEvent → Round → Turn
on_control r p =
    if not (r.errno == 0)
    then break_loop (record (p.vars.ec) { errno = r.errno }) p
    else go_on (record {
      vars = record (p.vars) { inch = false; outch = true; cmd = r.cmd };
      log = received r.cmd ∷ p.log;
    })

abbrev on_deliver : Round → Turn
on_deliver p = go_on (record {
  vars = record (p.vars) { inch = true; outch = false };
  log = sent (record { cmd = p.vars.cmd; current_status = p.vars.status }) ∷ p.log;
})

abbrev on_updated : Status → Attempt (Unit {0}) → Round → Turn
on_updated c (returned _) p =
    go_on (record { vars = record (p.vars) { status = c }; log = reported c ∷ p.log })
on_updated c (failed e) p = break_loop (record (p.vars.ec) { errno = error_number e }) p

-- One case of the select.
unfoldable pub fire : Service → Offer → Round → M Turn
fire s (control r) p = return (on_control r p)
fire s deliver p = return (on_deliver p)
fire s (change c) p = do
  updated ← attempt (update_status s c p.vars.ec)
  return (on_updated c updated p)
fire s (exit ec) p = return (break_loop ec p)

unfoldable pub select : Service → Offer → Round → M Turn
unfolding fire
select s o p = if is_ready p.vars o then fire s o p else return (go_on p)

-- The loop over the offers, up to the first break.
-- What follows a round: the next one, or what stands behind the loop.
abbrev pub next_round : (Round → M Turn) → Turn → M Turn
next_round rest (go_on p) = rest p
next_round rest (break_loop ec p) = return (break_loop ec p)

unfoldable pub run_loop : Service → List Offer → Round → M Turn
run_loop s [] p = return (go_on p)
run_loop s (o ∷ offers) p = do turn ← select s o p; next_round (run_loop s offers) turn
