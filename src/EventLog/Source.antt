-- ===== src/EventLog/Source.antt =====
-- eventlog/install.go: registration of an event source in the registry.
pub mod Installed
pub mod Written
pub mod Stored
pub mod Sources
pub mod History
pub mod Returning
use winsvc.Prelude.{ℕ, Bool, true, ◌++◌, if◌then◌else◌}
use winsvc.Unicode.{GoString, codes}
use winsvc.Registry
use winsvc.Registry.{Key}
use winsvc.Winapi.Constants.{hkey_local_machine}
use winsvc.Winapi.System.{M, fail, message, ◌>>=◌, ignore, deferred}

abbrev pub add_key_name : GoString
add_key_name = codes "SYSTEM\\CurrentControlSet\\Services\\EventLog\\Application"

-- The message file's value, as an expandable string or a plain one.
unfoldable pub set_message_file :
    Key → (msg_file : GoString) → (use_expand_key : Bool) → M (Unit {0})
unfolding Registry.set_string_expand Registry.set_string
set_message_file sk msg_file use_expand_key =
    if use_expand_key
    then Registry.set_string_expand sk (codes "EventMessageFile") msg_file
    else Registry.set_string sk (codes "EventMessageFile") msg_file

-- The rest of Install, once the source's key is open.
unfoldable pub set_values :
    (src msg_file : GoString)
    → (use_expand_key : Bool) → (events_supported : ℕ) → Key × Bool
    → M (Unit {0})
unfolding set_message_file Registry.set_uint32
set_values src msg_file use_expand_key events_supported (sk, already_exist) =
    if already_exist
    then fail
        (message (add_key_name ++ (codes "\\" ++ (src ++ codes " registry key already exists"))))
    else (do
      _ ← Registry.set_uint32 sk (codes "CustomSource") 1
      _ ← set_message_file sk msg_file use_expand_key
      Registry.set_uint32 sk (codes "TypesSupported") events_supported)

-- Install under the open key of the log.
unfoldable pub install_under :
    (src msg_file : GoString)
    → (use_expand_key : Bool) → (events_supported : ℕ) → Key
    → M (Unit {0})
unfolding Registry.create_sub_key
install_under src msg_file use_expand_key events_supported appkey = do
  r ← Registry.create_sub_key appkey src
  deferred (ignore (Registry.close (r.0)))
      (set_values src msg_file use_expand_key events_supported r)

unfoldable pub install :
    (src msg_file : GoString) → (use_expand_key : Bool) → (events_supported : ℕ) → M (Unit {0})
unfolding Registry.open_key Registry.close install_under
install src msg_file use_expand_key events_supported = do
  appkey ← Registry.open_key hkey_local_machine add_key_name
  deferred (ignore (Registry.close appkey))
      (install_under src msg_file use_expand_key events_supported appkey)

unfoldable pub install_as_event_create : (src : GoString) → (events_supported : ℕ) → M (Unit {0})
install_as_event_create src events_supported =
    install src (codes "%SystemRoot%\\System32\\EventCreate.exe") true events_supported

unfoldable pub remove : (src : GoString) → M (Unit {0})
unfolding Registry.open_key Registry.close Registry.delete_sub_key
remove src = do
  appkey ← Registry.open_key hkey_local_machine add_key_name
  deferred (ignore (Registry.close appkey)) (Registry.delete_sub_key appkey src)
