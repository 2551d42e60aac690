-- ===== src/Mgr/Control.antt =====
-- mgr/service.go: what can be asked of a service.
use winsvc.Prelude.{ℕ, List, [], ◌∷◌, length}
use winsvc.Unicode.{GoString}
use winsvc.Syscall
use winsvc.Winapi.Procs
use winsvc.Winapi.Types.{StringPtr, ServiceStatus}
use winsvc.Winapi.System.{M, return, ◌>>=◌}
use winsvc.Mgr.Manager.{Service}
use winsvc.Svc.Types.{Status}

unfoldable pub delete : Service → M (Unit {0})
unfolding Procs.delete_service
delete s = Procs.delete_service s.handle

unfoldable pub close : Service → M (Unit {0})
unfolding Procs.close_service_handle
close s = Procs.close_service_handle s.handle

-- The pointers to the arguments.
unfoldable pub arg_pointers : List GoString → M (List StringPtr)
unfolding Syscall.string_to_utf16_ptr
arg_pointers [] = return []
arg_pointers (a ∷ args) = do
  p ← Syscall.string_to_utf16_ptr a
  ps ← arg_pointers args
  return (p ∷ ps)

unfoldable pub start : Service → List GoString → M (Unit {0})
unfolding arg_pointers Procs.start_service
start s args = do vs ← arg_pointers args; Procs.start_service s.handle (length args) vs

-- The status that Control and Query return.
abbrev pub status_of : ServiceStatus → Status
status_of t = record {
  state = t.current_state;
  accepts = t.controls_accepted;
  check_point = 0;
  wait_hint = 0;
}

unfoldable pub control : Service → (cmd : ℕ) → M Status
unfolding Procs.control_service
control s cmd = do t ← Procs.control_service s.handle cmd; return (status_of t)

unfoldable pub query : Service → M Status
unfolding Procs.query_service_status
query s = do t ← Procs.query_service_status s.handle; return (status_of t)
