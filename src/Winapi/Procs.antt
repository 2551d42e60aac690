-- ===== src/Winapi/Procs.antt =====
-- winapi/zwinapi_windows.go: each wrapper makes its call and turns the raw result into Go's error.
pub mod Results
use winsvc.Prelude.{ℕ, ◌%◌, Bool, not, List, ◌==◌, if◌then◌else◌}
use winsvc.Winapi.Constants.{einval}
use winsvc.Winapi.Types.{
  StringPtr, ServiceStatus, ServiceTableEntry, ServiceDescription, CreateServiceArgs,
  ChangeServiceConfigArgs, ReportEventArgs, RegCreateKeyExArgs, RegSetValueExArgs, AllocateSidArgs,
}
use winsvc.Winapi.System.{
  Call, Reply, Error, errno, M, return, fail, ◌>>=◌, Attempt, returned, failed, attempt, call,
}

-- `if e1 != 0 { err = error(e1) } else { err = syscall.EINVAL }`
unfoldable pub last_error : ℕ → Error
last_error e1 = if not (e1 == 0) then errno e1 else errno einval

-- The result is a handle, and 0 is failure.
unfoldable pub handle_result : Reply → M ℕ
unfolding last_error
handle_result r = if r.r0 == 0 then fail (last_error r.e1) else return r.r0

-- The result 0 is failure.
unfoldable pub check_nonzero : Reply → M (Unit {0})
unfolding last_error
check_nonzero r = if r.r0 == 0 then fail (last_error r.e1) else return tt

-- Any result but 0 is failure.
unfoldable pub check_zero : Reply → M (Unit {0})
unfolding last_error
check_zero r = if not (r.r0 == 0) then fail (last_error r.e1) else return tt

-- The result is itself the error number.
unfoldable pub check_errno : Reply → M (Unit {0})
check_errno r = if not (r.r0 == 0) then fail (errno r.r0) else return tt

-- A query also reports the size that it needs, whether it fails or not.
abbrev pub answer : Attempt (Unit {0}) → Reply → Attempt Reply
answer (returned _) r = returned r
answer (failed e) r = failed e

unfoldable pub create_event :
    (event_attrs manual_reset initial_state : ℕ) → (name : StringPtr) → M ℕ
unfolding handle_result
create_event event_attrs manual_reset initial_state name = do
  r ← call (Call.create_event event_attrs manual_reset initial_state name)
  handle_result r

unfoldable pub set_event : (event : ℕ) → M (Unit {0})
unfolding check_nonzero
set_event event = do r ← call (Call.set_event event); check_nonzero r

unfoldable pub register_event_source : (unc_server_name source_name : StringPtr) → M ℕ
unfolding handle_result
register_event_source unc_server_name source_name = do
  r ← call (Call.register_event_source unc_server_name source_name)
  handle_result r

unfoldable pub deregister_event_source : (handle : ℕ) → M (Unit {0})
unfolding check_nonzero
deregister_event_source handle = do r ← call (Call.deregister_event_source handle); check_nonzero r

unfoldable pub report_event : ReportEventArgs → M (Unit {0})
unfolding check_nonzero
report_event args = do r ← call (Call.report_event args); check_nonzero r

unfoldable pub reg_create_key_ex : RegCreateKeyExArgs → M (ℕ × ℕ)
unfolding check_errno
reg_create_key_ex args = do
  r ← call (Call.reg_create_key_ex args)
  _ ← check_errno r
  return (r.handle, r.dword)

unfoldable pub reg_delete_key : (key : ℕ) → (subkey : StringPtr) → M (Unit {0})
unfolding check_errno
reg_delete_key key subkey = do r ← call (Call.reg_delete_key key subkey); check_errno r

unfoldable pub reg_set_value_ex : RegSetValueExArgs → M (Unit {0})
unfolding check_errno
reg_set_value_ex args = do r ← call (Call.reg_set_value_ex args); check_errno r

unfoldable pub allocate_sid : AllocateSidArgs → M ℕ
unfolding check_nonzero
allocate_sid args = do r ← call (Call.allocate_sid args); _ ← check_nonzero r; return r.handle

unfoldable pub free_sid : (sid : ℕ) → M (Unit {0})
unfolding check_zero
free_sid sid = do r ← call (Call.free_sid sid); check_zero r

unfoldable pub equal_sid : (sid₁ sid₂ : ℕ) → M Bool
equal_sid sid₁ sid₂ = do r ← call (Call.equal_sid sid₁ sid₂); return (not (r.r0 == 0))

unfoldable pub open_sc_manager : (machine_name database_name : StringPtr) → (access : ℕ) → M ℕ
unfolding handle_result
open_sc_manager machine_name database_name access = do
  r ← call (Call.open_sc_manager machine_name database_name access)
  handle_result r

unfoldable pub close_service_handle : (handle : ℕ) → M (Unit {0})
unfolding check_nonzero
close_service_handle handle = do r ← call (Call.close_service_handle handle); check_nonzero r

unfoldable pub create_service : CreateServiceArgs → M ℕ
unfolding handle_result
create_service args = do r ← call (Call.create_service args); handle_result r

unfoldable pub open_service : (mgr : ℕ) → (service_name : StringPtr) → (access : ℕ) → M ℕ
unfolding handle_result
open_service mgr service_name access = do
  r ← call (Call.open_service mgr service_name access)
  handle_result r

unfoldable pub delete_service : (service : ℕ) → M (Unit {0})
unfolding check_nonzero
delete_service service = do r ← call (Call.delete_service service); check_nonzero r

unfoldable pub start_service :
    (service num_args : ℕ) → (arg_vectors : List StringPtr) → M (Unit {0})
unfolding check_nonzero
start_service service num_args arg_vectors = do
  r ← call (Call.start_service service num_args arg_vectors)
  check_nonzero r

unfoldable pub query_service_status : (service : ℕ) → M ServiceStatus
unfolding check_nonzero
query_service_status service = do
  r ← call (Call.query_service_status service)
  _ ← check_nonzero r
  return r.status

unfoldable pub control_service : (service control : ℕ) → M ServiceStatus
unfolding check_nonzero
control_service service control = do
  r ← call (Call.control_service service control)
  _ ← check_nonzero r
  return r.status

unfoldable pub start_service_ctrl_dispatcher : List ServiceTableEntry → M (Unit {0})
unfolding check_nonzero
start_service_ctrl_dispatcher service_table = do
  r ← call (Call.start_service_ctrl_dispatcher service_table)
  check_nonzero r

unfoldable pub set_service_status : (service : ℕ) → (service_status : ServiceStatus) → M (Unit {0})
unfolding check_nonzero
set_service_status service service_status = do
  r ← call (Call.set_service_status service service_status)
  check_nonzero r

unfoldable pub change_service_config : ChangeServiceConfigArgs → M (Unit {0})
unfolding check_nonzero
change_service_config args = do r ← call (Call.change_service_config args); check_nonzero r

unfoldable pub query_service_config : (service buf_size : ℕ) → M (Attempt Reply × ℕ)
unfolding check_nonzero
query_service_config service buf_size = do
  r ← call (Call.query_service_config service buf_size)
  checked ← attempt (check_nonzero r)
  return (answer checked r, r.dword)

unfoldable pub change_service_config2 :
    (service info_level : ℕ) → (info : ServiceDescription) → M (Unit {0})
unfolding check_nonzero
change_service_config2 service info_level info = do
  r ← call (Call.change_service_config2 service info_level info)
  check_nonzero r

unfoldable pub query_service_config2 : (service info_level buff_size : ℕ) → M (Attempt Reply × ℕ)
unfolding check_nonzero
query_service_config2 service info_level buff_size = do
  r ← call (Call.query_service_config2 service info_level buff_size)
  checked ← attempt (check_nonzero r)
  return (answer checked r, r.dword)

unfoldable pub get_current_thread_id : M ℕ
get_current_thread_id = do r ← call Call.get_current_thread_id; return (r.r0 % 0x100000000)
