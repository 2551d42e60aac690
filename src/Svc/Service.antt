-- ===== src/Svc/Service.antt =====
-- svc/service.go: newService, close and updateStatus.
pub mod Report
pub mod Handles
use Prim.Native.Nat.{bit_and, bit_or}
use winsvc.Prelude.{ℕ, not, Bool, ◌==◌, if◌then◌else◌}
use winsvc.Unicode.{GoString, codes}
use winsvc.Winapi.Constants
use winsvc.Winapi.Procs
use winsvc.Winapi.Types.{ServiceStatus}
use winsvc.Winapi.System.{
  M, return, fail, message, ◌>>=◌, Attempt, returned, failed, attempt, ignore,
}
use winsvc.Svc.Event
use winsvc.Svc.Types.{
  Status, ExitCode, Service, accept_stop, accept_shutdown, accept_pre_shutdown,
  accept_pause_and_continue,
}

-- The first event is closed again where the second cannot be made.
unfoldable pub new_service : GoString → M Service
unfolding Event.new_event Event.close
new_service name = do
  c_waits ← Event.new_event
  second ← attempt Event.new_event
  elim second [
    | returned go_waits ↦
        return (record { name = name; h = 0; c_waits = c_waits; go_waits = go_waits })
    | failed e ↦ do _ ← ignore (Event.close c_waits); fail e
  ]

unfoldable pub close : Service → M (Unit {0})
unfolding Event.close
close s = do _ ← ignore (Event.close s.c_waits); _ ← ignore (Event.close s.go_waits); return tt

-- `if accepts&flag != 0 { controls |= control }`
abbrev add_control : (accepts flag control controls : ℕ) → ℕ
add_control accepts flag control controls =
    if not (bit_and accepts flag == 0) then bit_or controls control else controls

unfoldable pub controls_accepted : ℕ → ℕ
controls_accepted accepts =
    let c₁ = add_control accepts accept_stop Constants.service_accept_stop 0 in
    let c₂ = add_control accepts accept_shutdown Constants.service_accept_shutdown c₁ in
    let c₃ = add_control accepts accept_pre_shutdown Constants.service_accept_preshutdown c₂ in
    add_control accepts accept_pause_and_continue Constants.service_accept_pause_continue c₃

unfoldable pub win32_exit_code : ExitCode → ℕ
win32_exit_code ec =
    if ec.errno == 0
    then Constants.no_error
    else if ec.is_svc_specific
    then Constants.error_service_specific_error
    else ec.errno

unfoldable pub service_specific_exit_code : ExitCode → ℕ
service_specific_exit_code ec =
    if ec.errno == 0
    then Constants.no_error
    else if ec.is_svc_specific
    then ec.errno
    else Constants.no_error

-- The block `t` that updateStatus fills in.
unfoldable pub service_status : Status → ExitCode → ServiceStatus
unfolding controls_accepted win32_exit_code service_specific_exit_code
service_status status ec = record {
  service_type = Constants.service_win32_own_process;
  current_state = status.state;
  controls_accepted = controls_accepted status.accepts;
  win32_exit_code = win32_exit_code ec;
  service_specific_exit_code = service_specific_exit_code ec;
  check_point = status.check_point;
  wait_hint = status.wait_hint;
}

unfoldable pub update_status : Service → Status → ExitCode → M (Unit {0})
unfolding Procs.set_service_status
update_status s status ec =
    if s.h == 0
    then fail (message (codes "updateStatus with no service status handle"))
    else Procs.set_service_status s.h (service_status status ec)
