-- ===== src/Winapi/Constants/Rights.antt =====
-- winapi/service.go: access rights and the kinds of services that only callers may use.
use Prim.Native.Nat.{ℕ, bit_or}
use winsvc.Winapi.Constants.{service_win32_own_process}

abbrev pub sc_manager_connect : ℕ
sc_manager_connect = 1

abbrev pub sc_manager_create_service : ℕ
sc_manager_create_service = 2

abbrev pub sc_manager_enumerate_service : ℕ
sc_manager_enumerate_service = 4

abbrev pub sc_manager_lock : ℕ
sc_manager_lock = 8

abbrev pub sc_manager_query_lock_status : ℕ
sc_manager_query_lock_status = 16

abbrev pub sc_manager_modify_boot_config : ℕ
sc_manager_modify_boot_config = 32

abbrev pub service_kernel_driver : ℕ
service_kernel_driver = 1

abbrev pub service_file_system_driver : ℕ
service_file_system_driver = 2

abbrev pub service_adapter : ℕ
service_adapter = 4

abbrev pub service_recognizer_driver : ℕ
service_recognizer_driver = 8

abbrev pub service_win32_share_process : ℕ
service_win32_share_process = 32

abbrev pub service_win32 : ℕ
service_win32 = bit_or service_win32_own_process service_win32_share_process

abbrev pub service_interactive_process : ℕ
service_interactive_process = 256

abbrev pub service_driver : ℕ
service_driver =
    bit_or (bit_or service_kernel_driver service_file_system_driver) service_recognizer_driver

abbrev pub service_type_all : ℕ
service_type_all =
    bit_or (bit_or (bit_or service_win32 service_adapter) service_driver)
      service_interactive_process

abbrev pub service_boot_start : ℕ
service_boot_start = 0

abbrev pub service_system_start : ℕ
service_system_start = 1

abbrev pub sc_status_process_info : ℕ
sc_status_process_info = 0

abbrev pub service_active : ℕ
service_active = 1

abbrev pub service_inactive : ℕ
service_inactive = 2

abbrev pub service_state_all : ℕ
service_state_all = 3

abbrev pub service_query_config : ℕ
service_query_config = 1

abbrev pub service_change_config : ℕ
service_change_config = 2

abbrev pub service_query_status : ℕ
service_query_status = 4

abbrev pub service_enumerate_dependents : ℕ
service_enumerate_dependents = 8

abbrev pub service_start : ℕ
service_start = 16

abbrev pub service_stop : ℕ
service_stop = 32

abbrev pub service_pause_continue : ℕ
service_pause_continue = 64

abbrev pub service_interrogate : ℕ
service_interrogate = 128

abbrev pub service_user_defined_control : ℕ
service_user_defined_control = 256

abbrev pub service_runs_in_system_process : ℕ
service_runs_in_system_process = 1

abbrev pub service_config_failure_actions : ℕ
service_config_failure_actions = 2
