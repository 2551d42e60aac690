-- ===== src/Svc/Globals.antt =====
-- svc/service.go: the variables that the assembly part uses, as init and Run set them.
use winsvc.Prelude.{ℕ, Option, none, some}
use winsvc.Winapi.Procedures.{Procedure, kernel32, advapi32}
use winsvc.Svc.Machine.{Globals}
use winsvc.Svc.Types.{Service}

-- As the process starts.
abbrev pub unset : Globals
unset = record {
  go_waits_h = 0;
  c_waits_h = 0;
  ss_handle = 0;
  s_name = 0;
  s_argc = 0;
  s_argv = 0;
  ctl_handler_proc = 0;
  c_set_event = 0;
  c_wait_for_single_object = 0;
  c_register_service_ctrl_handler_ex = 0;
}

-- MustFindProc panics where there is no such procedure.
abbrev pub must_find : Option ℕ → (ℕ → Option Globals) → Option Globals
must_find none rest = none
must_find (some address) rest = rest address

-- The argument says where the procedures are, if the DLL has them.
unfoldable pub init : (Procedure → Option ℕ) → Globals → Option Globals
init find g = must_find (find (kernel32 "SetEvent")) (λ set_event.
    must_find (find (kernel32 "WaitForSingleObject")) (λ wait_for_single_object.
      must_find (find (advapi32 "RegisterServiceCtrlHandlerExW")) (λ register. some (record g {
        c_set_event = set_event;
        c_wait_for_single_object = wait_for_single_object;
        c_register_service_ctrl_handler_ex = register;
      }))))

-- The assignments of Run, with the address of the name in its table and of the callback.
unfoldable pub publish : Service → (service_name ctl_handler_proc : ℕ) → Globals → Globals
publish s service_name ctl_handler_proc g = record g {
  go_waits_h = s.go_waits;
  c_waits_h = s.c_waits;
  s_name = service_name;
  ctl_handler_proc = ctl_handler_proc;
}
