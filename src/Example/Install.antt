-- ===== src/Example/Install.antt =====
-- example/install.go: installing and removing the service. What filepath.Abs, os.Stat and
-- filepath.Ext answer about the program's file is an argument.
pub mod Held
pub mod Stored
pub mod Kept
pub mod Rollback
pub mod Atomic
pub mod Removed
use Prim.Native.Nat.{bit_or}
use winsvc.Prelude.{Bool, List, [], ◌++◌, is_empty, if◌then◌else◌}
use winsvc.Unicode.{GoString, codes}
use winsvc.Winapi.System.{
  Error, message, wrapped, Trace, Outcome, ok, err, panic, M, return, fail, ◌>>=◌, Attempt,
  returned, failed, attempt, ignore, deferred,
}
use winsvc.EventLog.Log.{error_level, warning_level, info_level}
use winsvc.EventLog.Source
use winsvc.Mgr.Config.{Config}
use winsvc.Mgr.Control
use winsvc.Mgr.Manager.{Mgr, Service, connect, disconnect, create_service, open_service}
use winsvc.Example.Manage.{explained}

-- What the file system and its paths say: whether there is a file, and whether it is a directory.
pub record Files : Type 0 where
  pub abs : GoString → Attempt GoString
  pub stat_is_dir : GoString → Attempt Bool
  pub ext : GoString → GoString

abbrev checked : GoString → Attempt Bool → Attempt GoString
checked p (returned is_dir) =
    if is_dir then failed (message (p ++ codes " is directory")) else returned p
checked p (failed e) = failed e

-- One os.Stat with the test behind it.
unfoldable pub file_at : Files → GoString → Attempt GoString
file_at files p = checked p (files.stat_is_dir p)

-- The second try, whose error is not the one that is returned.
unfoldable pub with_extension : Error → Attempt GoString → Attempt GoString
with_extension e (returned p) = returned p
with_extension e (failed _) = failed e

unfoldable pub file_or_exe : Files → GoString → Attempt GoString → Attempt GoString
unfolding file_at with_extension
file_or_exe files p (returned q) = returned q
file_or_exe files p (failed e) =
    if is_empty (files.ext p)
    then with_extension e (file_at files (p ++ codes ".exe"))
    else failed e

unfoldable pub exe_of : Files → Attempt GoString → Attempt GoString
unfolding file_at file_or_exe
exe_of files (failed e) = failed e
exe_of files (returned p) = file_or_exe files p (file_at files p)

unfoldable pub exe_path : Files → (prog : GoString) → Attempt GoString
unfolding exe_of
exe_path files prog = exe_of files (files.abs prog)

-- mgr.Config{DisplayName: desc}
abbrev pub named_config : GoString → Config
named_config desc = record {
  service_type = 0;
  start_type = 0;
  error_control = 0;
  binary_path_name = [];
  load_order_group = [];
  tag_id = 0;
  dependencies = [];
  service_start_name = [];
  display_name = desc;
  password = [];
  description = [];
}

-- What follows the registration of the event source.
unfoldable pub or_delete : Service → Attempt (Unit {0}) → M (Unit {0})
unfolding Control.delete
or_delete s (returned _) = return tt
or_delete s (failed e) = do
  _ ← ignore (Control.delete s)
  fail (wrapped (codes "SetupEventLogSource() failed: ") e)

unfoldable pub register : (name : GoString) → Service → M (Unit {0})
unfolding Source.install_as_event_create or_delete
register name s = do
  written ←
      attempt
        (Source.install_as_event_create name (bit_or (bit_or error_level warning_level) info_level))
  or_delete s written

-- What follows OpenService.
unfoldable pub unless_found : Mgr → (name desc exepath : GoString) → Attempt Service → M (Unit {0})
unfolding create_service Control.close register
unless_found m name desc exepath (returned s) = do
  _ ← ignore (Control.close s)
  fail (message (codes "service " ++ (name ++ codes " already exists")))
unless_found m name desc exepath (failed e) = do
  s ← create_service m name exepath (named_config desc)
  deferred (ignore (Control.close s)) (register name s)

unfoldable pub install_in : (name desc exepath : GoString) → Mgr → M (Unit {0})
unfolding open_service unless_found
install_in name desc exepath m = do
  found ← attempt (open_service m name)
  unless_found m name desc exepath found

unfoldable pub install_with : (name desc : GoString) → Attempt GoString → M (Unit {0})
unfolding connect disconnect install_in
install_with name desc (failed e) = fail e
install_with name desc (returned exepath) = do
  m ← connect
  deferred (ignore (disconnect m)) (install_in name desc exepath m)

unfoldable pub install_service : Files → (prog name desc : GoString) → M (Unit {0})
unfolding exe_path install_with
install_service files prog name desc = install_with name desc (exe_path files prog)

-- OpenService, whose error is replaced.
abbrev not_installed : {A : Type 0} → GoString → Outcome A × Trace → Outcome A × Trace
not_installed name (ok a, t) = (ok a, t)
not_installed name (err e, t) =
    (err (message (codes "service " ++ (name ++ codes " is not installed"))), t)
not_installed name (panic, t) = (panic, t)

unfoldable pub open_installed : Mgr → GoString → M Service
unfolding open_service
open_installed m name os t = not_installed name (open_service m name os t)

unfoldable pub delete_all : (name : GoString) → Service → M (Unit {0})
unfolding Control.delete Source.remove
delete_all name s = do
  _ ← Control.delete s
  explained (codes "RemoveEventLogSource() failed: ") (Source.remove name)

unfoldable pub remove_service : (name : GoString) → M (Unit {0})
unfolding connect disconnect open_installed Control.close delete_all
remove_service name = do
  m ← connect
  deferred (ignore (disconnect m))
      (do s ← open_installed m name; deferred (ignore (Control.close s)) (delete_all name s))
