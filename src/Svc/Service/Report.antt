-- ===== src/Svc/Service/Report.antt =====
-- What updateStatus tells the service control manager.
use winsvc.Prelude.{ℕ, ◌+◌, ◌*◌, ◌/◌, ◌%◌, ◌≡◌, ◌≢◌, ◌⊎◌, true, arith, ◌==◌, if◌then◌else◌}
use winsvc.Prelude.Bits.{bit_and_1, bit_and_2, bit_and_4, bit_and_256}
use winsvc.Winapi.Types.{ServiceStatus}
use winsvc.Svc.Types.{Status, ExitCode}
use winsvc.Svc.Service.{controls_accepted, service_status}

-- What a reader of the two exit code fields takes them to say.
pub data Reading : Type 0 where
  no_failure : Reading
  system_failure : ℕ → Reading
  service_failure : ℕ → Reading

abbrev pub read_exit : ServiceStatus → Reading
read_exit t =
    if t.win32_exit_code == 0
    then no_failure
    else if t.win32_exit_code == 1066
    then service_failure t.service_specific_exit_code
    else system_failure t.win32_exit_code

abbrev pub meaning : ExitCode → Reading
meaning ec =
    if ec.errno == 0
    then no_failure
    else if ec.is_svc_specific
    then service_failure ec.errno
    else system_failure ec.errno

-- The exit code fields of a status block read back as the handler's exit code, unless a code that
-- is not service specific is 1066, the number that marks service specific ones.
pub read_exit-service_status :
    (status : Status) (ec : ExitCode)
    → (ec.is_svc_specific ≡ true) ⊎ (ec.errno ≢ 1066)
    → read_exit (service_status status ec) ≡ meaning ec
unfolding service_status
read_exit-service_status status ec h = ground arith

-- Of the accepted commands exactly stop, pause and continue, shutdown and preshutdown are passed
-- on to Windows, each by its own bit.
pub controls_accepted-bits :
    (a : ℕ) → controls_accepted a ≡ a % 2 + a / 2 % 2 * 2 + a / 4 % 2 * 4 + a / 256 % 2 * 256
unfolding controls_accepted
controls_accepted-bits a = ground (arith, bit_and_1 a, bit_and_2 a, bit_and_4 a, bit_and_256 a)
