-- ===== src/Example/Install/Removed.antt =====
-- removeService on the services that Windows stores.
use winsvc.Prelude.{ℕ, ◌≡◌, not, ◌&&◌, Bool, false, List, ◌⊎◌, ◌++◌}
use winsvc.Unicode.{GoString, codes, has_nul, same_text}
use winsvc.Winapi.System.{Error, errno, message, wrapped, Os, Trace, Outcome, ok, err, panic, ◌>>=◌}
use winsvc.Mgr.Control
use winsvc.Mgr.Manager.{Mgr, Service}
use winsvc.EventLog.Source
use winsvc.Example.Install.Stored.{service_key, is_service, installed}

abbrev pub absent : GoString → Error
absent name = message (codes "service " ++ (name ++ codes " is not installed"))

-- The error of a call of Windows.
abbrev pub IsErrno : Error → Type 0
IsErrno e = (k : ℕ) × (e ≡ errno k)

module _ (fold : List ℕ → List ℕ) (first : List ℕ → Bool) (name : GoString) (n : List ℕ) where
  abbrev pub WithoutService : (before : Bool) → Trace → Type 0
  WithoutService before t =
      installed fold first n t ≡ (not (same_text (service_key fold name) n) && before)

  -- The service is gone, also behind an error at its event source; or the services are as they
  -- were, and the error is that of a call of Windows or says that the service is not installed.
  abbrev pub EndsRemoved : (before : Bool) → Outcome (Unit {0}) × Trace → Type 0
  EndsRemoved before (ok u, t) = WithoutService before t
  EndsRemoved before (err e, t) =
      ((installed fold first n t ≡ before) × ((e ≡ absent name) ⊎ IsErrno e))
      ⊎ (WithoutService before t
          × ((e' : Error) × (e ≡ wrapped (codes "RemoveEventLogSource() failed: ") e')))
  EndsRemoved before (panic, t) = ⊥

module _ (os : Os) (fold : List ℕ → List ℕ) (first : List ℕ → Bool) (name : GoString) (n : List ℕ)
    (plain : has_nul name ≡ false) where
  abbrev Found : (before : Bool) → Outcome Service × Trace → Type 0
  Found before (ok s, t) =
      (is_service fold s.handle n t ≡ same_text (service_key fold name) n)
      × (installed fold first n t ≡ before)
  Found before (err e, t) = (e ≡ absent name) × (installed fold first n t ≡ before)
  Found before (panic, t) = ⊥

  abbrev Deleted : (before : Bool) → Outcome (Unit {0}) × Trace → Type 0
  Deleted before (ok u, t) = WithoutService fold first name n before t
  Deleted before (err e, t) = (installed fold first n t ≡ before) × IsErrno e
  Deleted before (panic, t) = ⊥

  abbrev Connected : (before : Bool) → Outcome Mgr × Trace → Type 0
  Connected before (ok m, t) = installed fold first n t ≡ before
  Connected before (err e, t) = (installed fold first n t ≡ before) × IsErrno e
  Connected before (panic, t) = ⊥
