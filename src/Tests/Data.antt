-- ===== src/Tests/Data.antt =====
-- A Windows that grants every wish, with a new handle for each call, and one that refuses all.
use winsvc.Prelude.{ℕ, ◌+◌, false, none, [], ◌∷◌, length, ◌==◌, if◌then◌else◌}
use winsvc.Unicode.{codes}
use winsvc.Winapi.System.{Call, Reply, Os}
use winsvc.Winapi.Types.{ServiceStatus, QueryServiceConfig}
use winsvc.Svc.Types.{Status, CtlEvent, ExitCode, Service}

abbrev pub blank_status : ServiceStatus
blank_status = record {
  service_type = 16;
  current_state = 4;
  controls_accepted = 1;
  win32_exit_code = 0;
  service_specific_exit_code = 0;
  check_point = 0;
  wait_hint = 0;
}

abbrev pub blank_config : QueryServiceConfig
blank_config = record {
  service_type = 16;
  start_type = 3;
  error_control = 1;
  binary_path_name = none;
  load_order_group = none;
  tag_id = 0;
  dependencies = none;
  service_start_name = none;
  display_name = none;
}

abbrev pub reply : (r0 e1 handle dword : ℕ) → Reply
reply r0 e1 handle dword = record {
  r0 = r0;
  e1 = e1;
  handle = handle;
  dword = dword;
  status = blank_status;
  config = blank_config;
  description = record { description = none };
  token_groups = record { groups = 1 ∷ 2 ∷ 3 ∷ [] };
}

-- The functions of the registry answer 0 for success, and a SID is the same as itself only.
abbrev pub generous : Os
generous t (Call.reg_create_key_ex args) = reply 0 0 (100 + length t) 1
generous t (Call.reg_open_key_ex parent path options desired) = reply 0 0 (100 + length t) 0
generous t (Call.reg_set_value_ex args) = reply 0 0 0 0
generous t (Call.reg_delete_key key subkey) = reply 0 0 0 0
generous t (Call.reg_close_key key) = reply 0 0 0 0
generous t (Call.wait_for_single_object handle ms) = reply 0 0 0 0
generous t (Call.equal_sid a b) = reply (if a == b then 1 else 0) 0 0 0
generous t Call.get_current_thread_id = reply 77 0 0 0
generous t (Call.free_sid s) = reply 0 0 0 0
generous t _ = reply (100 + length t) 0 (200 + length t) 0

abbrev pub refusing : Os
refusing t c = reply 0 5 0 0

abbrev pub beeper : Service
beeper = record { name = codes "beeper"; h = 9; c_waits = 11; go_waits = 12 }

abbrev pub event_of : ℕ → ℕ → CtlEvent
event_of cmd errno = record {
  cmd = cmd;
  event_type = 0;
  event_data = 0;
  context = 0;
  errno = errno;
}

abbrev pub status_with : ℕ → ℕ → Status
status_with state accepts = record {
  state = state;
  accepts = accepts;
  check_point = 0;
  wait_hint = 0;
}

abbrev pub exit_with : ℕ → ExitCode
exit_with n = record { is_svc_specific = false; errno = n }
