-- ===== src/Example/Install/Kept.antt =====
-- What the registry code of Install and Remove, and the deferred calls, leave alone: the services.
use winsvc.Prelude.{ℕ, refl, Bool, true, false, List, arith}
use winsvc.Unicode.{GoString}
use winsvc.Winapi.Observed.{Keeps, bind-Keeps, deferred-Keeps}
use winsvc.Winapi.Constants.{hkey_local_machine}
use winsvc.Winapi.System.{Trace, ignore}
use winsvc.Registry.{Key, open_key, close, create_sub_key, delete_sub_key}
use winsvc.EventLog.Source.{
  add_key_name, set_values, install_under, install, install_as_event_create, remove,
}
use winsvc.Mgr.Control
use winsvc.Mgr.Manager.{Mgr, Service, disconnect}
use winsvc.Example.Install.Stored.{is_service, installed, delete_refused}

module _ (fold : List ℕ → List ℕ) (first : List ℕ → Bool) (h : ℕ) (n : List ℕ) where
  -- Whether the handle is that of the service, whether the service is installed, and whether the
  -- last deletion was refused.
  abbrev pub services : Trace → Bool × Bool × Bool
  services t = (is_service fold h n t, installed fold first n t, delete_refused t)

  set_values-Keeps :
      (src msg_file : GoString) (use_expand_key : Bool) (events : ℕ) (r : Key × Bool)
      → Keeps services (set_values src msg_file use_expand_key events r)
  unfolding set_values
  set_values-Keeps src msg_file true events (k, false) os t = ground arith
  set_values-Keeps src msg_file false events (k, false) os t = ground arith
  set_values-Keeps src msg_file use_expand_key events (k, true) os t = refl

  open_key-Keeps : (parent : ℕ) (path : GoString) → Keeps services (open_key parent path)
  unfolding open_key
  open_key-Keeps parent path os t = ground arith

  create_sub_key-Keeps : (k : Key) (name : GoString) → Keeps services (create_sub_key k name)
  unfolding create_sub_key
  create_sub_key-Keeps k name os t = ground arith

  delete_sub_key-Keeps : (k : Key) (name : GoString) → Keeps services (delete_sub_key k name)
  unfolding delete_sub_key
  delete_sub_key-Keeps k name os t = ground arith

  close-Keeps : (k : Key) → Keeps services (ignore (close k))
  unfolding close
  close-Keeps k os t = ground arith

  install_under-Keeps :
      (src msg_file : GoString) (use_expand_key : Bool) (events : ℕ) (k : Key)
      → Keeps services (install_under src msg_file use_expand_key events k)
  unfolding install_under
  install_under-Keeps src msg_file use_expand_key events k =
      bind-Keeps services (create_sub_key k src) _ (create_sub_key-Keeps k src) (λ r.
        deferred-Keeps services (ignore (close (r.0)))
          (set_values src msg_file use_expand_key events r) (close-Keeps (r.0))
          (set_values-Keeps src msg_file use_expand_key events r))

  pub install-Keeps :
      (src : GoString) (events : ℕ) → Keeps services (install_as_event_create src events)
  unfolding install_as_event_create install
  install-Keeps src events =
      bind-Keeps services (open_key hkey_local_machine add_key_name) _
        (open_key-Keeps hkey_local_machine add_key_name)
        (λ k.
          deferred-Keeps services (ignore (close k)) (install_under src _ true events k)
            (close-Keeps k) (install_under-Keeps src _ true events k))

  pub remove-Keeps : (src : GoString) → Keeps services (remove src)
  unfolding remove
  remove-Keeps src =
      bind-Keeps services (open_key hkey_local_machine add_key_name) _
        (open_key-Keeps hkey_local_machine add_key_name)
        (λ k.
          deferred-Keeps services (ignore (close k)) (delete_sub_key k src) (close-Keeps k)
            (delete_sub_key-Keeps k src))

  -- Closing the service's handle, and the connection.
  pub close_service-Keeps : (s : Service) → Keeps services (ignore (Control.close s))
  unfolding Control.close
  close_service-Keeps s os t = ground arith

  pub disconnect-Keeps : (m : Mgr) → Keeps services (ignore (disconnect m))
  unfolding disconnect
  disconnect-Keeps m os t = ground arith
