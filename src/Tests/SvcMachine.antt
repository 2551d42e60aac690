-- ===== src/Tests/SvcMachine.antt =====
-- The service's main function on both processors, with a Windows that grants or refuses the handler.
use winsvc.Prelude.{ℕ, ◌≡◌, refl, arith, true, Option, some, []}
use winsvc.Winapi.Procedures.{Procedure}
use winsvc.Svc.Globals.{unset, init, publish}
use winsvc.Svc.Machine.{x86, amd64, num, Globals, Machine, Windows, Flow, gone, exec, step}
use winsvc.Svc.Machine.Main.{run_main}
use winsvc.Svc.Machine.Main.Returns.{EndsMain, run_main-EndsMain}
use winsvc.Svc.Machine.Main.Served.{EndsServing, servicemain-EndsServing}
use winsvc.Svc.Machine.Main.Argv.{EndsHalved, servicemain-EndsHalved}
use winsvc.Tests.Data.{beeper}

-- The answer to every call; the procedures take their arguments off the stack and leave junk.
abbrev answering : ℕ → Windows
answering n = record {
  result = λ calls. n;
  junk = λ calls r. num 1;
  scratch = λ calls d. num 2;
  sp_after = λ calls. 28;
}

abbrev fresh : Machine
fresh = record {
  regs = λ r. num 3;
  sp = 0;
  memory = λ d. num 4;
  is_zero = true;
  globals = unset;
  called = [];
}

abbrev everywhere : Procedure → Option ℕ
everywhere p = some 5000

abbrev found : Globals
found = record unset {
  c_set_event = 5000;
  c_wait_for_single_object = 5000;
  c_register_service_ctrl_handler_ex = 5000;
}

init_finds : init everywhere unset ≡ some found
unfolding init
init_finds = refl

-- What is seen of an end.
abbrev handle_of : Flow → ℕ
handle_of (gone v m) = m.globals.ss_handle
handle_of f = 0

abbrev argc_of : Flow → ℕ
argc_of (gone v m) = m.globals.s_argc
argc_of f = 0

granted_386 : handle_of (run_main x86 60 (answering 7) 100 1 2000 fresh) ≡ 7
unfolding exec step
granted_386 = refl

refused_386 : handle_of (run_main x86 60 (answering 0) 100 1 2000 fresh) ≡ 0
unfolding exec step
refused_386 = refl

granted_amd64 : handle_of (run_main amd64 60 (answering 7) 100 1 2000 fresh) ≡ 7
unfolding exec step
granted_amd64 = refl

argc_amd64 : argc_of (run_main amd64 60 (answering 7) 100 5 2000 fresh) ≡ 5
unfolding exec step
argc_amd64 = refl

run_main-EndsMain_example :
    EndsMain x86 60 (answering 7) 100 1 2000 fresh (run_main x86 60 (answering 7) 100 1 2000 fresh)
run_main-EndsMain_example = run_main-EndsMain x86 60 (answering 7) 100 1 2000 fresh

servicemain-EndsServing_example : EndsServing everywhere beeper 800 60 (answering 7) 100 1 2000 [] (
    run_main amd64 60
      (answering 7)
      100
      1
      2000
      (record fresh { globals = publish beeper 800 900 found }))
servicemain-EndsServing_example =
    servicemain-EndsServing amd64 everywhere found beeper 800 900 60 (answering 7) 100 1 2000 fresh
      init_finds (omega arith) (omega arith)

-- An address above 4 GB.
servicemain-EndsHalved_example :
    EndsHalved 8589934600 (run_main amd64 60 (answering 7) 100 1 8589934600 fresh)
servicemain-EndsHalved_example =
    servicemain-EndsHalved 60 (answering 7) 100 1 8589934600 fresh (omega arith)
