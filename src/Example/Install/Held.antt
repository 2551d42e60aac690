-- ===== src/Example/Install/Held.antt =====
-- The handles and keys that installing and removing hold.
use winsvc.Prelude.{◌≡◌, refl, ◌∙◌, true, List, arith}
use winsvc.Unicode.{GoString, codes}
use winsvc.Winapi.System.{
  Error, Os, Trace, Outcome, ok, err, panic, M, Attempt, returned, failed, attempt, settle, resume,
  ignore,
}
use winsvc.Winapi.Resources.{Resource, sc_handle, live}
use winsvc.Winapi.Resources.Bracket.{
  KeepsLive, bind-KeepsLive, Acquired, Acquires, bracket-KeepsLive,
}
use winsvc.EventLog.Source
use winsvc.EventLog.Source.Installed.{install-KeepsLive, remove-KeepsLive}
use winsvc.Mgr.Manager.{
  Mgr, Service, connect, disconnect, with_defaults, create_call, create_service, open_service,
}
use winsvc.Mgr.Control
use winsvc.Mgr.Strings.{to_ptr}
use winsvc.Example.Manage.Held.{
  connect-Acquires, disconnect-Releases, close-Releases, explained-KeepsLive,
}
use winsvc.Example.Install.{
  Files, named_config, or_delete, register, unless_found, install_in, install_with, install_service,
  exe_path, open_installed, delete_all, remove_service,
}

create_service-Acquires :
    (m : Mgr) (name desc exepath : GoString)
    → Acquires (λ s. sc_handle s.handle) (create_service m name exepath (named_config desc))
unfolding create_service create_call to_ptr with_defaults
create_service-Acquires m name desc exepath os t = ground arith

or_delete-KeepsLive : (s : Service) (x : Attempt (Unit {0})) → KeepsLive (or_delete s x)
unfolding or_delete
or_delete-KeepsLive s (returned _) os t = refl
or_delete-KeepsLive s (failed e) os t = ground arith

attempt-KeepsLive : {A : Type 0} (m : M A) → KeepsLive m → KeepsLive (attempt m)
attempt-KeepsLive m k os t = ground (arith, k os t)

register-KeepsLive : (name : GoString) (s : Service) → KeepsLive (register name s)
unfolding register
register-KeepsLive name s =
    bind-KeepsLive (attempt (Source.install_as_event_create name 7)) (or_delete s)
      (attempt-KeepsLive (Source.install_as_event_create name 7) (install-KeepsLive name _ true 7))
      (or_delete-KeepsLive s)

module _ (name desc : GoString) where
  create-KeepsLive :
      (exepath : GoString) (m : Mgr) (e : Error)
      → KeepsLive (unless_found m name desc exepath (failed e))
  unfolding unless_found
  create-KeepsLive exepath m e =
      bracket-KeepsLive (λ s. sc_handle s.handle)
        (create_service m name exepath (named_config desc)) (λ s. ignore (Control.close s))
        (register name) (create_service-Acquires m name desc exepath) close-Releases
        (register-KeepsLive name)

  -- Behind OpenService, whichever way it ends.
  unless_found-live :
      (exepath : GoString) (m : Mgr) (x : Outcome Service × Trace) (os : Os) (held : List Resource)
      → Acquired (λ s. sc_handle s.handle) held x
      → live (resume (settle x) (unless_found m name desc exepath) os).1 ≡ held
  unfolding unless_found Control.close
  unless_found-live exepath m (ok s, t) os held h = ground arith
  unless_found-live exepath m (err e, t) os held h = create-KeepsLive exepath m e os t ∙ h
  unless_found-live exepath m (panic, t) os held h = h

  open_service-Acquires : (m : Mgr) → Acquires (λ s. sc_handle s.handle) (open_service m name)
  unfolding open_service
  open_service-Acquires m os t = ground arith

  install_in-KeepsLive : (exepath : GoString) (m : Mgr) → KeepsLive (install_in name desc exepath m)
  unfolding install_in
  install_in-KeepsLive exepath m os t =
      unless_found-live exepath m (open_service m name os t) os (live t)
        (open_service-Acquires m os t)

  install_with-KeepsLive : (x : Attempt GoString) → KeepsLive (install_with name desc x)
  unfolding install_with
  install_with-KeepsLive (failed e) os t = refl
  install_with-KeepsLive (returned exepath) os t =
      bracket-KeepsLive (λ m. sc_handle m.handle) connect (λ m. ignore (disconnect m))
        (install_in name desc exepath) connect-Acquires disconnect-Releases
        (install_in-KeepsLive exepath) os t

-- However it ends, installService has closed the handles and keys that it opened.
pub install_service-KeepsLive :
    (files : Files) (prog name desc : GoString) → KeepsLive (install_service files prog name desc)
unfolding install_service
install_service-KeepsLive files prog name desc =
    install_with-KeepsLive name desc (exe_path files prog)

delete-KeepsLive : (s : Service) → KeepsLive (Control.delete s)
unfolding Control.delete
delete-KeepsLive s os t = ground arith

delete_all-KeepsLive : (name : GoString) (s : Service) → KeepsLive (delete_all name s)
unfolding delete_all
delete_all-KeepsLive name s = bind-KeepsLive (Control.delete s) _ (delete-KeepsLive s) (λ _.
    explained-KeepsLive (codes "RemoveEventLogSource() failed: ") (Source.remove name)
      (remove-KeepsLive name))

open_installed-Acquires :
    (m : Mgr) (name : GoString) → Acquires (λ s. sc_handle s.handle) (open_installed m name)
unfolding open_installed
open_installed-Acquires m name os t = ground arith

-- However it ends, removeService has closed the handles and keys that it opened.
pub remove_service-KeepsLive : (name : GoString) → KeepsLive (remove_service name)
unfolding remove_service
remove_service-KeepsLive name =
    bracket-KeepsLive (λ m. sc_handle m.handle) connect (λ m. ignore (disconnect m)) _
      connect-Acquires disconnect-Releases
      (λ m.
        bracket-KeepsLive (λ s. sc_handle s.handle) (open_installed m name)
          (λ s. ignore (Control.close s)) (delete_all name) (open_installed-Acquires m name)
          close-Releases (delete_all-KeepsLive name))
