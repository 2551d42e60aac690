-- ===== src/Example/Install/Rollback.antt =====
-- installService behind CreateService: it deletes the service that it created where the event
-- source cannot be registered.
use winsvc.Prelude.{
  is_empty, ℕ, ◌≡◌, ◌≢◌, ◌⊎◌, inl, inr, refl, ap, ◌∙◌, ◌||◌, ◌==◌, Bool, true, false, some, List,
  [], ◌∷◌, ◌++◌, arith,
}
use winsvc.Unicode.{GoString, codes, encode, has_nul, same_text}
use winsvc.Winapi.System.{
  Call, Error, wrapped, Os, Trace, Outcome, ok, err, panic, M, Attempt, returned, failed, settle,
  resume, ignore, deferred, after,
}
use winsvc.Winapi.Observed.{Keeps}
use winsvc.Winapi.Procs
use winsvc.Mgr.Manager.Created.{creation, requested, create_call-creation}
use winsvc.Mgr.Control
use winsvc.Mgr.Manager.{Mgr, Service, with_defaults, create_service}
use winsvc.EventLog.Source
use winsvc.EventLog.Source.Returning.{install_as_event_create-Returns}
use winsvc.Example.Install.{named_config, or_delete, register}
use winsvc.Example.Install.Stored.{service_key, is_service, installed, delete_refused, Manages}
use winsvc.Example.Install.Kept.{close_service-Keeps, services, install-Keeps}

abbrev pub IsSourceError : Error → Type 0
IsSourceError e = (e' : Error) × (e ≡ wrapped (codes "SetupEventLogSource() failed: ") e')

module _ (fold : List ℕ → List ℕ) (first : List ℕ → Bool) (name : GoString) (n : List ℕ) where
  abbrev pub WithService : (before : Bool) → Trace → Type 0
  WithService before t = installed fold first n t ≡ (same_text (service_key fold name) n || before)

  -- A new service; or an error and the services as they were; or the error of the event source
  -- with the new service left behind, since its deletion was refused.
  abbrev pub EndsAtomic : (known before : Bool) → Outcome (Unit {0}) × Trace → Type 0
  EndsAtomic known before (ok u, t) = (known ≡ false) × WithService before t
  EndsAtomic known before (err e, t) =
      (installed fold first n t ≡ before)
      ⊎ ((known ≡ false) × IsSourceError e × (delete_refused t ≡ true) × WithService before t)
  EndsAtomic known before (panic, t) = ⊥

module _ (os : Os) (fold : List ℕ → List ℕ) (first : List ℕ → Bool)
    (os_manages : Manages os fold first) (name : GoString) (n : List ℕ) where
  abbrev pub Created : (known before : Bool) → Outcome Service × Trace → Type 0
  Created known before (ok s, t) =
      (known ≡ false)
      × (is_service fold s.handle n t ≡ same_text (service_key fold name) n)
      × WithService fold first name n before t
  Created known before (err e, t) = installed fold first n t ≡ before
  Created known before (panic, t) = ⊥

  pub create_service-Created :
      (m : Mgr) (desc exepath : GoString) (t : Trace) (known : Bool)
      → is_empty name ≡ false
      → has_nul name ≡ false
      → has_nul desc ≡ false
      → has_nul exepath ≡ false
      → installed fold first (service_key fold name) t ≡ known
      → Created known
          (installed fold first n t)
          (create_service m name exepath (named_config desc) os t)
  unfolding create_service with_defaults Procs.create_service has_nul
  create_service-Created m desc exepath t known e h k l i =
      let args = creation m name (requested exepath (named_config desc)) in
      let named : args.service_name ≡ some (encode name ++ 0 ∷ []) = rw e refl in
      rw
        (create_call-creation m name exepath (requested exepath (named_config desc)) os t h l
          (l, refl, refl, k, refl, refl))
        (ground (arith, i, os_manages.taken t args (encode name ++ 0 ∷ []) named))

  deleted-EndsAtomic :
      (s : Service) (e : Error) (t : Trace) (before : Bool)
      → (same_text (service_key fold name) n ≡ true → before ≡ false)
      → (is_service fold s.handle n t ≡ same_text (service_key fold name) n)
      → WithService fold first name n before t
      → (refused : Bool) → ((os t (Call.delete_service s.handle)).r0 == 0) ≡ refused
      → EndsAtomic fold first name n false before (or_delete s (failed e) os t)
  unfolding or_delete
  deleted-EndsAtomic s e t before new h k true r =
      rw (r) (inr (refl, (e, refl), ground arith, ground arith))
  deleted-EndsAtomic s e t before new h k false r = rw (r) (inl (ground arith))

  or_delete-EndsAtomic :
      (s : Service) (x : Attempt (Unit {0})) (t : Trace) (before : Bool)
      → (same_text (service_key fold name) n ≡ true → before ≡ false)
      → (is_service fold s.handle n t ≡ same_text (service_key fold name) n)
      → WithService fold first name n before t
      → EndsAtomic fold first name n false before (or_delete s x os t)
  unfolding or_delete
  or_delete-EndsAtomic s (returned u) t before new h k = (refl, k)
  or_delete-EndsAtomic s (failed e) t before new h k =
      deleted-EndsAtomic s e t before new h k ((os t (Call.delete_service s.handle)).r0 == 0) refl

  or_delete-resumed :
      (s : Service) (x : Outcome (Unit {0}) × Trace) (before : Bool)
      → x.0 ≢ panic
      → (same_text (service_key fold name) n ≡ true → before ≡ false)
      → (is_service fold s.handle n x.1 ≡ same_text (service_key fold name) n)
      → WithService fold first name n before x.1
      → EndsAtomic fold first name n false before (resume (settle x) (or_delete s) os)
  or_delete-resumed s (ok u, t) before p new h k =
      or_delete-EndsAtomic s (returned u) t before new h k
  or_delete-resumed s (err e, t) before p new h k =
      or_delete-EndsAtomic s (failed e) t before new h k
  or_delete-resumed s (panic, t) before p new h k = absurd (p refl)

  register-EndsAtomic :
      (s : Service) (t : Trace) (before : Bool)
      → has_nul name ≡ false
      → (same_text (service_key fold name) n ≡ true → before ≡ false)
      → (is_service fold s.handle n t ≡ same_text (service_key fold name) n)
      → WithService fold first name n before t
      → EndsAtomic fold first name n false before (register name s os t)
  unfolding register
  register-EndsAtomic s t before plain new h k =
      let kept = install-Keeps fold first s.handle n name 7 os t in
      or_delete-resumed s (Source.install_as_event_create name 7 os t) before
        (install_as_event_create-Returns name 7 plain os t) new (ap (λ x. x.0) kept ∙ h)
        (ap (λ x. x.1) kept ∙ k)

  -- A deferred call that leaves the services alone.
  pub after-EndsAtomic :
      (d : M (Unit {0})) (known before : Bool) (x : Outcome (Unit {0}) × Trace)
      → Keeps (services fold first 0 n) d
      → EndsAtomic fold first name n known before x
      → EndsAtomic fold first name n known before (after x d os)
  after-EndsAtomic d known before (ok u, t) k (h, l) = (h, ap (λ x. x.1) (k os t) ∙ l)
  after-EndsAtomic d known before (err e, t) k (inl l) = inl (ap (λ x. x.1) (k os t) ∙ l)
  after-EndsAtomic d known before (err e, t) k (inr (h, s, r, l)) =
      inr (h, s, ap (λ x. x.2) (k os t) ∙ r, ap (λ x. x.1) (k os t) ∙ l)
  after-EndsAtomic d known before (panic, t) k v = absurd v

  pub Created-EndsAtomic :
      (x : Outcome Service × Trace) (known before : Bool)
      → has_nul name ≡ false
      → (same_text (service_key fold name) n ≡ true → before ≡ known)
      → Created known before x
      → EndsAtomic fold first name n known before
          (resume x (λ s. deferred (ignore (Control.close s)) (register name s)) os)
  Created-EndsAtomic (ok s, t) known before plain new (e, h, k) = rw e (
      after-EndsAtomic (ignore (Control.close s)) false before (register name s os t)
        (close_service-Keeps fold first 0 n s)
        (register-EndsAtomic s t before plain (λ same. new same ∙ e) h k))
  Created-EndsAtomic (err e, t) known before plain new h = inl h
  Created-EndsAtomic (panic, t) known before plain new h = absurd h
