-- ===== src/EventLog/Source/Returning.antt =====
-- Install and Remove do not panic on text without NUL.
use winsvc.Prelude.{ℕ, ◌≡◌, refl, Bool, true, false, arith}
use winsvc.Unicode.{GoString, has_nul}
use winsvc.Registry.{Key, open_key, close, create_sub_key, delete_sub_key}
use winsvc.Winapi.Constants.{hkey_local_machine}
use winsvc.Winapi.System.{ignore}
use winsvc.Winapi.Returning.{Returns, bind-Returns, deferred-Returns}
use winsvc.EventLog.Source.{
  add_key_name, set_values, install_under, install, install_as_event_create, remove,
}

open_key-Returns :
    (parent : ℕ) (path : GoString) → has_nul path ≡ false → Returns (open_key parent path)
unfolding open_key
open_key-Returns parent path h os t = ground arith

create_sub_key-Returns :
    (k : Key) (name : GoString) → has_nul name ≡ false → Returns (create_sub_key k name)
unfolding create_sub_key
create_sub_key-Returns k name h os t = ground arith

module _ (src msg_file : GoString) (events : ℕ) (plain : has_nul src ≡ false)
    (plain_file : has_nul msg_file ≡ false) where
  set_values-Returns :
      (use_expand_key : Bool) (r : Key × Bool)
      → Returns (set_values src msg_file use_expand_key events r)
  unfolding set_values has_nul
  set_values-Returns true (k, false) os t = ground arith
  set_values-Returns false (k, false) os t = ground arith
  set_values-Returns use_expand_key (k, true) os t = λ same. absurd (cc)

  install_under-Returns :
      (use_expand_key : Bool) (k : Key)
      → Returns (install_under src msg_file use_expand_key events k)
  unfolding install_under
  install_under-Returns use_expand_key k =
      bind-Returns (create_sub_key k src) _ (create_sub_key-Returns k src plain) (λ r.
        deferred-Returns (ignore (close (r.0))) (set_values src msg_file use_expand_key events r)
          (set_values-Returns use_expand_key r))

  install-Returns : (use_expand_key : Bool) → Returns (install src msg_file use_expand_key events)
  unfolding install has_nul
  install-Returns use_expand_key =
      bind-Returns (open_key hkey_local_machine add_key_name) _
        (open_key-Returns hkey_local_machine add_key_name refl)
        (λ k.
          deferred-Returns (ignore (close k)) (install_under src msg_file use_expand_key events k)
            (install_under-Returns use_expand_key k))

pub install_as_event_create-Returns :
    (src : GoString) (events : ℕ)
    → has_nul src ≡ false
    → Returns (install_as_event_create src events)
unfolding install_as_event_create has_nul
install_as_event_create-Returns src events h = install-Returns src _ events h refl true

delete_sub_key-Returns :
    (k : Key) (name : GoString) → has_nul name ≡ false → Returns (delete_sub_key k name)
unfolding delete_sub_key
delete_sub_key-Returns k name h os t = ground arith

pub remove-Returns : (src : GoString) → has_nul src ≡ false → Returns (remove src)
unfolding remove has_nul
remove-Returns src h =
    bind-Returns (open_key hkey_local_machine add_key_name) _
      (open_key-Returns hkey_local_machine add_key_name refl)
      (λ k.
        deferred-Returns (ignore (close k)) (delete_sub_key k src) (delete_sub_key-Returns k src h))
