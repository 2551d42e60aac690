-- ===== src/Winapi/Constants.antt =====
-- The constants of winapi/*.go that the packages use, and those of Go's package syscall. The
-- others are those of the children.
pub mod Controls
pub mod Rights
pub mod Sids
pub mod Records
use winsvc.Prelude.{ℕ}

-- winapi/service.go
abbrev pub sc_manager_all_access : ℕ
sc_manager_all_access = 0xf003f

abbrev pub service_win32_own_process : ℕ
service_win32_own_process = 16

abbrev pub service_auto_start : ℕ
service_auto_start = 2

abbrev pub service_demand_start : ℕ
service_demand_start = 3

abbrev pub service_disabled : ℕ
service_disabled = 4

abbrev pub service_error_ignore : ℕ
service_error_ignore = 0

abbrev pub service_error_normal : ℕ
service_error_normal = 1

abbrev pub service_error_severe : ℕ
service_error_severe = 2

abbrev pub service_error_critical : ℕ
service_error_critical = 3

abbrev pub service_stopped : ℕ
service_stopped = 1

abbrev pub service_start_pending : ℕ
service_start_pending = 2

abbrev pub service_stop_pending : ℕ
service_stop_pending = 3

abbrev pub service_running : ℕ
service_running = 4

abbrev pub service_continue_pending : ℕ
service_continue_pending = 5

abbrev pub service_pause_pending : ℕ
service_pause_pending = 6

abbrev pub service_paused : ℕ
service_paused = 7

abbrev pub service_accept_stop : ℕ
service_accept_stop = 1

abbrev pub service_accept_pause_continue : ℕ
service_accept_pause_continue = 2

abbrev pub service_accept_shutdown : ℕ
service_accept_shutdown = 4

abbrev pub service_accept_preshutdown : ℕ
service_accept_preshutdown = 256

abbrev pub service_control_stop : ℕ
service_control_stop = 1

abbrev pub service_control_pause : ℕ
service_control_pause = 2

abbrev pub service_control_continue : ℕ
service_control_continue = 3

abbrev pub service_control_interrogate : ℕ
service_control_interrogate = 4

abbrev pub service_control_shutdown : ℕ
service_control_shutdown = 5

abbrev pub service_control_preshutdown : ℕ
service_control_preshutdown = 15

abbrev pub service_all_access : ℕ
service_all_access = 0xf01ff

abbrev pub service_config_description : ℕ
service_config_description = 1

abbrev pub no_error : ℕ
no_error = 0

-- winapi/eventlog.go
abbrev pub eventlog_error_type : ℕ
eventlog_error_type = 1

abbrev pub eventlog_warning_type : ℕ
eventlog_warning_type = 2

abbrev pub eventlog_information_type : ℕ
eventlog_information_type = 4

-- winapi/registry.go
abbrev pub reg_option_non_volatile : ℕ
reg_option_non_volatile = 0

abbrev pub reg_opened_existing_key : ℕ
reg_opened_existing_key = 2

-- winapi/security.go
abbrev pub security_nt_authority : ℕ
security_nt_authority = 5

abbrev pub security_interactive_rid : ℕ
security_interactive_rid = 4

abbrev pub security_service_rid : ℕ
security_service_rid = 6

-- winapi/syscall.go
abbrev pub standard_rights_required : ℕ
standard_rights_required = 0xf0000

abbrev pub error_service_specific_error : ℕ
error_service_specific_error = 1066

-- Package syscall: errors of its own start at 1 << 29.
abbrev pub application_error : ℕ
application_error = 0x20000000

abbrev pub einval : ℕ
einval = 0x20000027

abbrev pub error_insufficient_buffer : ℕ
error_insufficient_buffer = 122

abbrev pub infinite : ℕ
infinite = 0xffffffff

abbrev pub wait_object_0 : ℕ
wait_object_0 = 0

abbrev pub wait_failed : ℕ
wait_failed = 0xffffffff

abbrev pub key_all_access : ℕ
key_all_access = 0xf003f

abbrev pub reg_sz : ℕ
reg_sz = 1

abbrev pub reg_expand_sz : ℕ
reg_expand_sz = 2

abbrev pub reg_dword : ℕ
reg_dword = 4

abbrev pub hkey_local_machine : ℕ
hkey_local_machine = 0x80000002

abbrev pub token_query : ℕ
token_query = 8

abbrev pub token_groups : ℕ
token_groups = 2
