-- ===== src/Example/Install/Atomic.antt =====
-- installService on the services that Windows stores.
use winsvc.Prelude.{
  is_empty, ◌==◌, ℕ, ◌≡◌, inl, refl, sym, ◌∙◌, Bool, true, false, List, [], ◌∷◌, arith,
}
use winsvc.Unicode.{GoString, has_nul, same_text}
use winsvc.Winapi.System.{
  Call, Os, Trace, Outcome, ok, err, panic, returned, settle, resume, ignore, deferred,
}
use winsvc.Mgr.Control
use winsvc.Mgr.Manager.{Mgr, Service, connect, disconnect, create_service, open_service}
use winsvc.Example.Install.{
  Files, named_config, unless_found, install_in, install_with, install_service, exe_path,
}
use winsvc.Example.Install.Stored.{service_key, installed, Manages}
use winsvc.Example.Install.Kept.{disconnect-Keeps}
use winsvc.Example.Install.Rollback.{
  after-EndsAtomic, EndsAtomic, create_service-Created, Created-EndsAtomic,
}

same_text_sound : (a b : List ℕ) → same_text a b ≡ true → a ≡ b
unfolding same_text
same_text_sound [] [] h = refl
same_text_sound [] (u ∷ b) h = absurd (cc)
same_text_sound (u ∷ a) [] h = absurd (cc)
same_text_sound (u ∷ a) (v ∷ b) h = ground (arith, same_text_sound a b)

module _ (fold : List ℕ → List ℕ) (first : List ℕ → Bool) (name : GoString) (n : List ℕ) where
  -- Whether the service of the name is installed, and whether the other one is.
  abbrev pub Stands : (known before : Bool) → Trace → Type 0
  Stands known before t =
      (installed fold first (service_key fold name) t ≡ known) × (installed fold first n t ≡ before)

  -- What follows leaves the services as they were.
  abbrev pub Opened : {A : Type 0} → (known before : Bool) → Outcome A × Trace → Type 0
  Opened known before (ok a, t) = Stands known before t
  Opened known before (err e, t) = Stands known before t
  Opened known before (panic, t) = ⊥

  pub same-before :
      (t : Trace) (known : Bool)
      → installed fold first (service_key fold name) t ≡ known
      → same_text (service_key fold name) n ≡ true
      → installed fold first n t ≡ known
  same-before t known h k = rw (sym (same_text_sound (service_key fold name) n k)) h

  pub open_service-Opened :
      (os : Os) (m : Mgr) (t : Trace) (known before : Bool)
      → has_nul name ≡ false
      → Stands known before t
      → Opened known before (open_service m name os t)
  unfolding open_service
  open_service-Opened os m t known before plain (h, k) = ground arith

  pub connect-Opened :
      (os : Os) (t : Trace) (known before : Bool)
      → Stands known before t
      → Opened known before (connect os t)
  unfolding connect
  connect-Opened os t known before (h, k) = ground arith

module _ (os : Os) (fold : List ℕ → List ℕ) (first : List ℕ → Bool)
    (os_manages : Manages os fold first) (name : GoString) (n : List ℕ) where
  module _ (desc exepath : GoString) (has_name : is_empty name ≡ false)
      (plain : has_nul name ≡ false) (plain_desc : has_nul desc ≡ false)
      (plain_path : has_nul exepath ≡ false) where
    found-EndsAtomic :
        (m : Mgr) (s : Service) (t : Trace) (known before : Bool)
        → installed fold first n t ≡ before
        → (refused : Bool) → ((os t (Call.close_service_handle s.handle)).r0 == 0) ≡ refused
        → EndsAtomic fold first name n known before
            (unless_found m name desc exepath (returned s) os t)
    unfolding unless_found Control.close
    found-EndsAtomic m s t known before k true r = rw (r) (inl k)
    found-EndsAtomic m s t known before k false r = rw (r) (inl k)

    unless_found-EndsAtomic :
        (m : Mgr) (known before : Bool) (x : Outcome Service × Trace)
        → (same_text (service_key fold name) n ≡ true → before ≡ known)
        → Opened fold first name n known before x
        → EndsAtomic fold first name n known before
            (resume (settle x) (unless_found m name desc exepath) os)
    unfolding unless_found
    unless_found-EndsAtomic m known before (ok s, t) new (h, k) =
        found-EndsAtomic m s t known before k ((os t (Call.close_service_handle s.handle)).r0 == 0)
          refl
    unless_found-EndsAtomic m known before (err e, t) new (h, k) = rw (sym k) (
        Created-EndsAtomic os fold first os_manages name n
          (create_service m name exepath (named_config desc) os t) known (installed fold first n t)
          plain (λ same. k ∙ new same)
          (create_service-Created os fold first os_manages name n m desc exepath t known has_name
            plain plain_desc plain_path h))
    unless_found-EndsAtomic m known before (panic, t) new v = absurd v

    install_in-EndsAtomic :
        (m : Mgr) (t : Trace) (known before : Bool)
        → (same_text (service_key fold name) n ≡ true → before ≡ known)
        → Stands fold first name n known before t
        → EndsAtomic fold first name n known before (install_in name desc exepath m os t)
    unfolding install_in
    install_in-EndsAtomic m t known before new v =
        unless_found-EndsAtomic m known before (open_service m name os t) new
          (open_service-Opened fold first name n os m t known before plain v)

    Opened-EndsAtomic :
        (known before : Bool) (x : Outcome Mgr × Trace)
        → (same_text (service_key fold name) n ≡ true → before ≡ known)
        → Opened fold first name n known before x
        → EndsAtomic fold first name n known before
            (resume x (λ m. deferred (ignore (disconnect m)) (install_in name desc exepath m)) os)
    Opened-EndsAtomic known before (ok m, t) new v =
        after-EndsAtomic os fold first os_manages name n (ignore (disconnect m)) known before
          (install_in name desc exepath m os t) (disconnect-Keeps fold first 0 n m)
          (install_in-EndsAtomic m t known before new v)
    Opened-EndsAtomic known before (err e, t) new (h, k) = inl k
    Opened-EndsAtomic known before (panic, t) new v = absurd v

    install_with-EndsAtomic :
        (t : Trace)
        → EndsAtomic fold first name n
            (installed fold first (service_key fold name) t)
            (installed fold first n t)
            (install_with name desc (returned exepath) os t)
    unfolding install_with
    install_with-EndsAtomic t =
        let known = installed fold first (service_key fold name) t in
        let before = installed fold first n t in
        Opened-EndsAtomic known before (connect os t) (same-before fold first name n t known refl)
          (connect-Opened fold first name n os t known before (refl, refl))

-- installService where Windows refuses to create a service under a name that is taken, for a
-- program that is found, a name that is not empty and text without NUL. It does not panic. When it
-- succeeds the service was not installed and is the only one that is new. When it fails the
-- services are what they were before, also where the event source could not be registered behind
-- the creation; or that was so and Windows refused to delete the new service, which then is the
-- only one that is new, and the error is that of the event source.
pub install_service-EndsAtomic :
    (files : Files) (prog name desc exepath : GoString) (os : Os) (fold : List ℕ → List ℕ)
    (first : List ℕ → Bool) (n : List ℕ) (t : Trace)
    → Manages os fold first
    → exe_path files prog ≡ returned exepath
    → is_empty name ≡ false
    → has_nul name ≡ false
    → has_nul desc ≡ false
    → has_nul exepath ≡ false
    → EndsAtomic fold first name n
        (installed fold first (service_key fold name) t)
        (installed fold first n t)
        (install_service files prog name desc os t)
unfolding install_service
install_service-EndsAtomic files prog name desc exepath os fold first n t os_manages found e h k l =
    rw (found) (install_with-EndsAtomic os fold first os_manages name n desc exepath e h k l t)
