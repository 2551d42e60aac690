-- ===== src/Svc/Run.antt =====
-- svc/service.go: the goroutine run around its loop, the control callback, and Run. What the
-- assembly part stores for run (the status handle, argc and argv), the address of the service's
-- main function and the outcome of Go's syscall.NewCallback are arguments.
pub mod Arguments
pub mod Ending
pub mod Control
pub mod Told
pub mod Words
use winsvc.Prelude.{
  ℕ, zero, suc, not, Bool, Option, none, some, List, [], ◌∷◌, ltb, ◌==◌, if◌then◌else◌,
}
use winsvc.Unicode.{GoString, codes}
use winsvc.Syscall.{utf16_to_string}
use winsvc.Syscall
use winsvc.Winapi.Procs
use winsvc.Winapi.Types.{StringPtr, ServiceTableEntry}
use winsvc.Winapi.System.{
  Error, message, M, return, fail, panics, ◌>>=◌, Attempt, returned, failed, ignore,
}
use winsvc.Svc.Event
use winsvc.Svc.Service.{new_service, update_status}
use winsvc.Svc.Loop.{
  Offer, Round, start_round, Turn, go_on, break_loop, run_loop, sys_err_new_thread_in_callback,
}
use winsvc.Svc.Types.{bare_status, CtlEvent, ExitCode, Service, stopped}

abbrev cons_string : Option GoString → Option (List GoString) → Option (List GoString)
cons_string none ss = none
cons_string (some s) none = none
cons_string (some s) (some ss) = some (s ∷ ss)

-- The string behind an argument. A nil pointer, or no 0 in its memory, is a fault.
unfoldable pub argument : StringPtr → Option GoString
unfolding utf16_to_string
argument none = none
argument (some us) = utf16_to_string 0x100000 us

-- The first n pointers that argv points to.
unfoldable pub take_arguments : ℕ → List StringPtr → Option (List GoString)
take_arguments zero argv = some []
take_arguments (suc n) [] = none
take_arguments (suc n) (a ∷ argv) = cons_string (argument a) (take_arguments n argv)

-- The slice of the array of 100 pointers, and the loop over it.
unfoldable pub arguments : ℕ → List StringPtr → Option (List GoString)
unfolding take_arguments
arguments argc argv = if ltb 100 argc then none else take_arguments argc argv

-- How far run came: its loop waits for the next offer, or it has ended.
pub data Ran : Type 0 where
  waiting : List GoString → Round → Ran
  finished : List GoString → ExitCode → Round → Ran

-- What stands behind the loop.
unfoldable pub finish : Service → List GoString → Turn → M Ran
unfolding Event.set
finish s args (go_on p) = return (waiting args p)
finish s args (break_loop ec p) = do
  _ ← ignore (update_status s (bare_status stopped) ec)
  _ ← ignore (Event.set s.c_waits)
  return (finished args ec p)

unfoldable pub serve : Service → List Offer → Option (List GoString) → M Ran
serve s offers none = panics
serve s offers (some args) = do turn ← run_loop s offers start_round; finish s args turn

unfoldable pub run : Service → (ss_handle argc : ℕ) → List StringPtr → List Offer → M Ran
unfolding Event.wait serve
run s ss_handle argc argv offers = do
  _ ← ignore (Event.wait s.go_waits)
  serve (record s { h = ss_handle }) offers (arguments argc argv)

-- The value of a panic, as recover gives it.
pub data PanicValue : Type 0 where
  text : GoString → PanicValue
  error : Error → PanicValue
  other : PanicValue

-- How syscall.NewCallback ends.
pub data Callback : Type 0 where
  made : ℕ → Callback
  panicked : PanicValue → Callback

unfoldable pub new_callback : Callback → M ℕ
new_callback (made cb) = return cb
new_callback (panicked (text v)) = fail (message v)
new_callback (panicked (error v)) = fail v
new_callback (panicked other) = fail (message (codes "unexpected panic in syscall.NewCallback"))

-- The callback ctlHandler up to its send on the channel: the event that it offers to the loop.
unfoldable pub ctl_handler : (tid ctl event event_data ctx : ℕ) → M CtlEvent
unfolding Procs.get_current_thread_id
ctl_handler tid ctl event event_data ctx = do
  i ← Procs.get_current_thread_id
  return (record {
    cmd = ctl;
    event_type = event;
    event_data = event_data;
    context = ctx;
    errno = if not (i == tid) then sys_err_new_thread_in_callback else 0;
  })

-- Run, but for the goroutine that it starts, which is run.
unfoldable pub run_service : GoString → (svcmain : ℕ) → Callback → M (Unit {0})
unfolding Procs.get_current_thread_id new_service new_callback Syscall.string_to_utf16_ptr
    Procs.start_service_ctrl_dispatcher
run_service name svcmain callback = do
  tid ← Procs.get_current_thread_id
  s ← new_service name
  service_name ← Syscall.string_to_utf16_ptr s.name
  ctl_handler_proc ← new_callback callback
  Procs.start_service_ctrl_dispatcher (
      record { service_name = service_name; service_proc = svcmain }
      ∷ record { service_name = none; service_proc = 0 }
      ∷ [])
