-- ===== src/Svc/Event.antt =====
-- svc/event.go: the auto-reset event between the Go and the assembly parts.
use winsvc.Prelude.{ℕ, none, ◌==◌, if◌then◌else◌}
use winsvc.Unicode.{codes}
use winsvc.Syscall
use winsvc.Winapi.Constants.{infinite, wait_object_0, wait_failed}
use winsvc.Winapi.Procs
use winsvc.Winapi.Procs.{last_error}
use winsvc.Winapi.System.{M, return, fail, message, ◌>>=◌}

unfoldable pub new_event : M ℕ
unfolding Procs.create_event
new_event = Procs.create_event 0 0 0 none

unfoldable pub close : ℕ → M (Unit {0})
unfolding Syscall.close_handle
close e = Syscall.close_handle e

unfoldable pub set : ℕ → M (Unit {0})
unfolding Procs.set_event
set e = Procs.set_event e

unfoldable pub wait : ℕ → M (Unit {0})
unfolding Syscall.wait_for_single_object last_error
wait e = do
  r ← Syscall.wait_for_single_object e infinite
  if r.r0 == wait_object_0
      then return tt
      else if r.r0 == wait_failed
      then fail (last_error r.e1)
      else fail (message (codes "unexpected result from WaitForSingleObject"))
