-- ===== src/Example/Handler.antt =====
-- example/service.go: the status with which Execute accepts controls.
use winsvc.Prelude.{ℕ}
use Prim.Native.Nat.{bit_or}
use winsvc.Svc.Types

abbrev pub cmds_accepted : ℕ
cmds_accepted =
    bit_or (bit_or (bit_or Types.accept_stop Types.accept_shutdown) Types.accept_pause_and_continue)
      Types.accept_pre_shutdown

abbrev pub accepting : (state : ℕ) → Types.Status
accepting state = record (Types.bare_status state) { accepts = cmds_accepted }
