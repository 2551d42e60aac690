-- ===== src/Svc/Types.antt =====
-- svc/service.go: states, commands, statuses and the messages between the goroutines.
use winsvc.Prelude.{ℕ, Bool}
use winsvc.Unicode.{GoString}
use winsvc.Winapi.Constants

abbrev pub stopped : ℕ
stopped = Constants.service_stopped

abbrev pub start_pending : ℕ
start_pending = Constants.service_start_pending

abbrev pub stop_pending : ℕ
stop_pending = Constants.service_stop_pending

abbrev pub running : ℕ
running = Constants.service_running

abbrev pub continue_pending : ℕ
continue_pending = Constants.service_continue_pending

abbrev pub pause_pending : ℕ
pause_pending = Constants.service_pause_pending

abbrev pub paused : ℕ
paused = Constants.service_paused

abbrev pub stop : ℕ
stop = Constants.service_control_stop

abbrev pub pause : ℕ
pause = Constants.service_control_pause

abbrev pub continue : ℕ
continue = Constants.service_control_continue

abbrev pub interrogate : ℕ
interrogate = Constants.service_control_interrogate

abbrev pub shutdown : ℕ
shutdown = Constants.service_control_shutdown

abbrev pub pre_shutdown : ℕ
pre_shutdown = Constants.service_control_preshutdown

abbrev pub accept_stop : ℕ
accept_stop = Constants.service_accept_stop

abbrev pub accept_shutdown : ℕ
accept_shutdown = Constants.service_accept_shutdown

abbrev pub accept_pre_shutdown : ℕ
accept_pre_shutdown = Constants.service_accept_preshutdown

abbrev pub accept_pause_and_continue : ℕ
accept_pause_and_continue = Constants.service_accept_pause_continue

pub record Status : Type 0 where
  pub state : ℕ
  pub accepts : ℕ
  pub check_point : ℕ
  pub wait_hint : ℕ

-- `Status{State: state}`
abbrev pub bare_status : ℕ → Status
bare_status state = record { state = state; accepts = 0; check_point = 0; wait_hint = 0 }

pub record ChangeRequest : Type 0 where
  pub cmd : ℕ
  pub current_status : Status

pub record CtlEvent : Type 0 where
  pub cmd : ℕ
  pub event_type : ℕ
  pub event_data : ℕ
  pub context : ℕ
  pub errno : ℕ

pub record ExitCode : Type 0 where
  pub is_svc_specific : Bool
  pub errno : ℕ

-- A service: its name, status handle and the handles of the two events. Its channel and its
-- handler are the offers of Svc/Loop.antt.
pub record Service : Type 0 where
  pub name : GoString
  pub h : ℕ
  pub c_waits : ℕ
  pub go_waits : ℕ
