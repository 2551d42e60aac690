-- ===== src/Tests/Example.antt =====
-- The example's commands at concrete data.
use winsvc.Prelude.{ltb, if◌then◌else◌, ◌≡◌, refl, arith, true, false, [], ◌∷◌}
use winsvc.Unicode.{codes, has_nul}
use winsvc.Winapi.System.{Call, Os, ok, message, returned, failed}
use winsvc.Svc.Types.{stopped, stop_pending, stop}
use winsvc.Example.Manage.{reached, control_service}
use winsvc.Example.Manage.Reaches.{queries, Settles, control_service_reaches}
use winsvc.Example.Manage.Polls.{EndsPolled, control_service-EndsPolled}
use winsvc.Example.Install.{Files, exe_path}
use winsvc.Tests.Data.{reply, blank_status, generous}

control_service-EndsPolled_example :
    EndsPolled 4
      (false ∷ true ∷ [])
      (control_service (codes "myservice") 1 4 (false ∷ true ∷ []) generous [])
unfolding has_nul
control_service-EndsPolled_example =
    control_service-EndsPolled (codes "myservice") 1 4 (false ∷ true ∷ []) generous [] refl

-- The program is found only under its name with the extension.
abbrev pub files : Files
files = record {
  abs = λ p. returned p;
  stat_is_dir = elim [ [] ↦ failed (message []) | _ ↦ returned false ];
  ext = λ p. [];
}

exe_path_test : exe_path files [] ≡ returned (codes ".exe")
unfolding exe_path
exe_path_test = refl

-- A service that stops behind two queries.
abbrev slow : Os
slow t (Call.query_service_status s) = record (reply 1 0 0 0) {
  status = record blank_status {
    current_state = if ltb (queries t) 2 then stop_pending else stopped;
  };
}
slow t _ = reply 1 0 0 0

slow-Settles : Settles slow stopped 2
slow-Settles = record {
  connects = λ t machine database access. ground arith;
  opens = λ t m name access. ground arith;
  controls = λ t s c. ground arith;
  answers = λ t s. ground arith;
  settles = λ t s past. ground arith;
}

control_service_reaches_example :
    (control_service (codes "a") stop stopped (false ∷ false ∷ false ∷ []) slow []).0 ≡ ok reached
unfolding has_nul
control_service_reaches_example =
    control_service_reaches (codes "a") stop stopped 2 (false ∷ false ∷ false ∷ []) slow []
      slow-Settles refl (ground arith) (omega arith) (omega arith)
