-- ===== src/EventLog/Source/Installed.antt =====
-- What Install and Remove leave behind.
use winsvc.Prelude.{ℕ, refl, Bool, true, false, arith}
use winsvc.Unicode.{GoString}
use winsvc.Registry.{Key, open_key, close, create_sub_key, delete_sub_key}
use winsvc.Winapi.Constants.{hkey_local_machine}
use winsvc.Winapi.System.{ignore}
use winsvc.Winapi.Resources.{key}
use winsvc.Winapi.Resources.Bracket.{KeepsLive, Acquires, Releases, bracket-KeepsLive}
use winsvc.EventLog.Source.{add_key_name, set_values, install_under, install, remove}

open_key-Acquires :
    (parent : ℕ) (path : GoString) → Acquires (λ k. key k.handle) (open_key parent path)
unfolding open_key
open_key-Acquires parent path os t = ground arith

create_sub_key-Acquires :
    (k : Key) (name : GoString) → Acquires (λ r. key (r.0).handle) (create_sub_key k name)
unfolding create_sub_key
create_sub_key-Acquires k name os t = ground arith

close-Releases : Releases (λ k. key k.handle) (λ k. ignore (close k))
unfolding close
close-Releases k os t held h = ground arith

close_sub_key-Releases : Releases (λ (r : Key × Bool). key (r.0).handle) (λ r. ignore (close (r.0)))
unfolding close
close_sub_key-Releases r os t held h = ground arith

set_values-KeepsLive :
    (src msg_file : GoString) (use_expand_key : Bool) (events_supported : ℕ) (r : Key × Bool)
    → KeepsLive (set_values src msg_file use_expand_key events_supported r)
unfolding set_values
set_values-KeepsLive src msg_file true events (sk, false) os t = ground arith
set_values-KeepsLive src msg_file false events (sk, false) os t = ground arith
set_values-KeepsLive src msg_file use_expand_key events (sk, true) os t = refl

install_under-KeepsLive :
    (src msg_file : GoString) (use_expand_key : Bool) (events_supported : ℕ) (k : Key)
    → KeepsLive (install_under src msg_file use_expand_key events_supported k)
unfolding install_under
install_under-KeepsLive src msg_file use_expand_key events k =
    bracket-KeepsLive (λ r. key (r.0).handle) (create_sub_key k src) (λ r. ignore (close (r.0)))
      (set_values src msg_file use_expand_key events) (create_sub_key-Acquires k src)
      close_sub_key-Releases (set_values-KeepsLive src msg_file use_expand_key events)

-- However it ends, Install has closed every registry key that it opened.
pub install-KeepsLive :
    (src msg_file : GoString) (use_expand_key : Bool) (events_supported : ℕ)
    → KeepsLive (install src msg_file use_expand_key events_supported)
unfolding install
install-KeepsLive src msg_file use_expand_key events =
    bracket-KeepsLive (λ k. key k.handle) (open_key hkey_local_machine add_key_name)
      (λ k. ignore (close k)) (install_under src msg_file use_expand_key events)
      (open_key-Acquires hkey_local_machine add_key_name) close-Releases
      (install_under-KeepsLive src msg_file use_expand_key events)

delete_sub_key-KeepsLive : (k : Key) (name : GoString) → KeepsLive (delete_sub_key k name)
unfolding delete_sub_key
delete_sub_key-KeepsLive k name os t = ground arith

-- However it ends, Remove has closed the registry key that it opened.
pub remove-KeepsLive : (src : GoString) → KeepsLive (remove src)
unfolding remove
remove-KeepsLive src =
    bracket-KeepsLive (λ k. key k.handle) (open_key hkey_local_machine add_key_name)
      (λ k. ignore (close k)) (λ k. delete_sub_key k src)
      (open_key-Acquires hkey_local_machine add_key_name) close-Releases
      (λ k. delete_sub_key-KeepsLive k src)
