-- ===== src/Winapi/Procedures.antt =====
-- winapi/zwinapi_windows.go: which procedure of which DLL stands behind each wrapper.
use Prim.Native.String.{String}
use winsvc.Prelude.{Option, none, some}
use winsvc.Winapi.System.{Call}

-- A procedure by its name, in one of the two DLLs that are loaded.
pub data Procedure : Type 0 where
  kernel32 : String → Procedure
  advapi32 : String → Procedure

-- None is a call of Go's package syscall.
abbrev pub procedure : Call → Option Procedure
procedure (Call.create_event _ _ _ _) = some (kernel32 "CreateEventW")
procedure (Call.set_event _) = some (kernel32 "SetEvent")
procedure (Call.register_event_source _ _) = some (advapi32 "RegisterEventSourceW")
procedure (Call.deregister_event_source _) = some (advapi32 "DeregisterEventSource")
procedure (Call.report_event _) = some (advapi32 "ReportEventW")
procedure (Call.reg_create_key_ex _) = some (advapi32 "RegCreateKeyExW")
procedure (Call.reg_delete_key _ _) = some (advapi32 "RegDeleteKeyW")
procedure (Call.reg_set_value_ex _) = some (advapi32 "RegSetValueExW")
procedure (Call.allocate_sid _) = some (advapi32 "AllocateAndInitializeSid")
procedure (Call.free_sid _) = some (advapi32 "FreeSid")
procedure (Call.equal_sid _ _) = some (advapi32 "EqualSid")
procedure (Call.open_sc_manager _ _ _) = some (advapi32 "OpenSCManagerW")
procedure (Call.close_service_handle _) = some (advapi32 "CloseServiceHandle")
procedure (Call.create_service _) = some (advapi32 "CreateServiceW")
procedure (Call.open_service _ _ _) = some (advapi32 "OpenServiceW")
procedure (Call.delete_service _) = some (advapi32 "DeleteService")
procedure (Call.start_service _ _ _) = some (advapi32 "StartServiceW")
procedure (Call.query_service_status _) = some (advapi32 "QueryServiceStatus")
procedure (Call.control_service _ _) = some (advapi32 "ControlService")
procedure (Call.start_service_ctrl_dispatcher _) = some (advapi32 "StartServiceCtrlDispatcherW")
procedure (Call.set_service_status _ _) = some (advapi32 "SetServiceStatus")
procedure (Call.change_service_config _) = some (advapi32 "ChangeServiceConfigW")
procedure (Call.query_service_config _ _) = some (advapi32 "QueryServiceConfigW")
procedure (Call.change_service_config2 _ _ _) = some (advapi32 "ChangeServiceConfig2W")
procedure (Call.query_service_config2 _ _ _) = some (advapi32 "QueryServiceConfig2W")
procedure Call.get_current_thread_id = some (kernel32 "GetCurrentThreadId")
procedure _ = none
