-- ===== src/Mgr/Manager.antt =====
-- mgr/mgr.go: the connection to the service control manager.
pub mod Created
use winsvc.Prelude.{ℕ, not, none, [], is_empty, ◌==◌, if◌then◌else◌}
use winsvc.Unicode.{GoString}
use winsvc.Syscall
use winsvc.Winapi.Constants
use winsvc.Winapi.Procs
use winsvc.Winapi.Types.{StringPtr}
use winsvc.Winapi.System.{M, return, ◌>>=◌}
use winsvc.Mgr.Strings.{to_ptr, to_string_block}
use winsvc.Mgr.Config.{Config, start_manual, error_normal, update_description}

pub record Mgr : Type 0 where
  pub handle : ℕ

-- mgr/service.go: Service
pub record Service : Type 0 where
  pub name : GoString
  pub handle : ℕ

-- The pointer to a host name, nil for this computer.
abbrev host_ptr : GoString → M StringPtr
host_ptr host = if not (is_empty host) then Syscall.string_to_utf16_ptr host else return none

unfoldable pub connect_remote : GoString → M Mgr
unfolding Syscall.string_to_utf16_ptr Procs.open_sc_manager
connect_remote host = do
  s ← host_ptr host
  h ← Procs.open_sc_manager s none Constants.sc_manager_all_access
  return (record { handle = h })

unfoldable pub connect : M Mgr
unfolding connect_remote
connect = connect_remote []

unfoldable pub disconnect : Mgr → M (Unit {0})
unfolding Procs.close_service_handle
disconnect m = Procs.close_service_handle m.handle

-- The configuration with what CreateService sets in it.
unfoldable pub with_defaults : (exepath : GoString) → Config → Config
with_defaults exepath c = record c {
  start_type = if c.start_type == 0 then start_manual else c.start_type;
  error_control = if c.error_control == 0 then error_normal else c.error_control;
  binary_path_name = exepath;
}

-- The call of Windows in CreateService, whose pointers are made first.
unfoldable pub create_call : Mgr → (name exepath : GoString) → Config → M ℕ
unfolding Procs.create_service
create_call m name exepath c = do
  service_name ← to_ptr name
  display_name ← to_ptr c.display_name
  path_name ← to_ptr exepath
  load_order_group ← to_ptr c.load_order_group
  service_start_name ← to_ptr c.service_start_name
  password ← to_ptr c.password
  Procs.create_service (record {
    mgr = m.handle;
    service_name = service_name;
    display_name = display_name;
    access = Constants.service_all_access;
    srv_type = Constants.service_win32_own_process;
    start_type = c.start_type;
    err_ctl = c.error_control;
    path_name = path_name;
    load_order_group = load_order_group;
    tag_id = 0;
    dependencies = to_string_block c.dependencies;
    service_start_name = service_start_name;
    password = password;
  })

unfoldable pub create_service : Mgr → (name exepath : GoString) → Config → M Service
create_service m name exepath c = do
  h ← create_call m name exepath (with_defaults exepath c)
  _ ← (if not (is_empty c.description) then update_description h c.description else return tt)
  return (record { name = name; handle = h })

unfoldable pub open_service : Mgr → GoString → M Service
unfolding Syscall.string_to_utf16_ptr Procs.open_service
open_service m name = do
  p ← Syscall.string_to_utf16_ptr name
  h ← Procs.open_service m.handle p Constants.service_all_access
  return (record { name = name; handle = h })
