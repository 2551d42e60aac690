-- ===== src/Debug/Pump.antt =====
-- debug/service.go: Run on the console. Its goroutine selects between a signal of the operating
-- system and a status change of the handler; after a signal it sends a stop request, and selects
-- again only when the handler has taken it. The order in which its peers become ready is a list
-- of offers, as in Svc/Loop.antt.
pub mod Contract
use winsvc.Prelude.{ℕ, Bool, true, false, List, [], ◌∷◌, not, ◌==◌, if◌then◌else◌}
use winsvc.Winapi.System.{Error, errno, Outcome, ok, err}
use winsvc.Svc.Types.{Status, bare_status, ChangeRequest, ExitCode, stop, stopped}

-- Where the goroutine stands: in its select, or in the send of a stop request.
pub data Place : Type 0 where
  selecting : Place
  sending : Place

pub data Offer : Type 0 where
  signal : Offer
  deliver : Offer
  change : Status → Offer

pub data Happening : Type 0 where
  signalled : Happening
  sent : ChangeRequest → Happening
  changed : Status → Happening

pub record Pump : Type 0 where
  pub place : Place
  pub status : Status
  pub log : List Happening

abbrev pub start : Pump
start = record { place = selecting; status = bare_status stopped; log = [] }

-- An offer that is not ready leaves its peer blocked.
abbrev pub pump_at : Place → Offer → Pump → Pump
pump_at selecting signal p = record p { place = sending; log = signalled ∷ p.log }
pump_at selecting (change st) p = record p { status = st; log = changed st ∷ p.log }
pump_at selecting deliver p = p
pump_at sending deliver p = record p {
  place = selecting;
  log = sent (record { cmd = stop; current_status = p.status }) ∷ p.log;
}
pump_at sending signal p = p
pump_at sending (change st) p = p

unfoldable pub pump : Offer → Pump → Pump
pump o p = pump_at p.place o p

unfoldable pub run_pump : List Offer → Pump → Pump
run_pump [] p = p
run_pump (o ∷ offers) p = run_pump offers (pump o p)

-- What Run returns for the exit code of the handler.
unfoldable pub exit_result : ExitCode → Outcome (Unit {0})
exit_result ec = if not (ec.errno == 0) then err (errno ec.errno) else ok tt
