-- ===== src/Svc/Loop/Calls.antt =====
-- What the loop of run asks of Windows.
use winsvc.Prelude.{◌≡◌, ◌≢◌, ◌⊎◌, List, [], ◌∷◌}
use winsvc.Winapi.System.{Call, set_service_status, Reply, Os, Trace}
use winsvc.Svc.Types.{Status, ExitCode, Service}
use winsvc.Svc.Service.{service_status}
use winsvc.Svc.Loop.{start, Happening, received, sent, reported, Round}

-- A status report with no exit code.
abbrev pub report : Service → Status → Call
report s st = set_service_status s.h (service_status st start.ec)

-- The calls since the trace before: a report that Windows took for each status change.
abbrev pub Reported : Service → List Happening → (now before : Trace) → Type 0
Reported s [] t t₀ = t ≡ t₀
Reported s (received c ∷ log) t t₀ = Reported s log t t₀
Reported s (sent r ∷ log) t t₀ = Reported s log t t₀
Reported s (reported st ∷ log) t t₀ =
    (r : Reply) × ((t' : Trace) × (t ≡ (report s st, r) ∷ t') × (r.r0 ≢ 0) × Reported s log t' t₀)

-- Windows refused one more.
abbrev pub Refused : Service → List Happening → (now before : Trace) → Type 0
Refused s log t t₀ =
    (st : Status) × ((r : Reply) × ((t' : Trace) × (t ≡ (report s st, r) ∷ t')
        × (r.r0 ≡ 0)
        × Reported s log t' t₀))

module _ (s : Service) (os : Os) (t₀ : Trace) where
  abbrev pub IsReported : Round → Trace → Type 0
  IsReported p t = (p.vars.ec ≡ start.ec) × Reported s p.log t t₀

  abbrev pub EndsReported : ExitCode → Round → Trace → Type 0
  EndsReported ec p t = Reported s p.log t t₀ ⊎ Refused s p.log t t₀
