-- ===== src/Svc/Machine/Main.antt =====
-- svc/sys_386.s and svc/sys_amd64.s: servicemain, which Windows calls on the thread of the
-- dispatcher, and servicectlhandler, which it calls for a control.
pub mod Returns
pub mod Served
pub mod Argv
pub mod Handler
use winsvc.Prelude.{ℕ, Bool, false, List, [], ◌∷◌, ◌==◌, if◌then◌else◌}
use winsvc.Svc.Machine.{
  Isa, x86, amd64, Value, num, ax, bx, cx, dx, si, di, bp, r8, Symbol, Machine, Windows, reg,
  sp_reg, at_sp, global, from, imm, address_of_handler, Instr, movl, movq, push, pop, sub_sp,
  add_sp, cmp, je_exit, exit_label, call, jmp, ret, Flow, exec,
}

abbrev pub servicemain_386 : List Instr
servicemain_386 =
    movl (from (at_sp 4)) (reg ax)
    ∷ movl (from (reg ax)) (global Symbol.s_argc)
    ∷ movl (from (at_sp 8)) (reg ax)
    ∷ movl (from (reg ax)) (global Symbol.s_argv)
    ∷ push bp
    ∷ push bx
    ∷ push si
    ∷ push di
    ∷ sub_sp 12
    ∷ movl (from (global Symbol.s_name)) (reg ax)
    ∷ movl (from (reg ax)) (at_sp 0)
    ∷ movl address_of_handler (reg ax)
    ∷ movl (from (reg ax)) (at_sp 4)
    ∷ movl (imm 0) (at_sp 8)
    ∷ movl (from (global Symbol.c_register_service_ctrl_handler_ex)) (reg ax)
    ∷ movl (from sp_reg) (reg bp)
    ∷ call ax
    ∷ movl (from (reg bp)) sp_reg
    ∷ cmp ax 0
    ∷ je_exit
    ∷ movl (from (reg ax)) (global Symbol.ss_handle)
    ∷ movl (from (global Symbol.go_waits_h)) (reg ax)
    ∷ movl (from (reg ax)) (at_sp 0)
    ∷ movl (from (global Symbol.c_set_event)) (reg ax)
    ∷ movl (from sp_reg) (reg bp)
    ∷ call ax
    ∷ movl (from (reg bp)) sp_reg
    ∷ movl (from (global Symbol.c_waits_h)) (reg ax)
    ∷ movl (from (reg ax)) (at_sp 0)
    ∷ movl (imm 0xffffffff) (reg ax)
    ∷ movl (from (reg ax)) (at_sp 4)
    ∷ movl (from (global Symbol.c_wait_for_single_object)) (reg ax)
    ∷ movl (from sp_reg) (reg bp)
    ∷ call ax
    ∷ movl (from (reg bp)) sp_reg
    ∷ exit_label
    ∷ add_sp 12
    ∷ pop di
    ∷ pop si
    ∷ pop bx
    ∷ pop bp
    ∷ movl (from (at_sp 0)) (reg cx)
    ∷ add_sp 12
    ∷ jmp cx
    ∷ []

abbrev pub servicemain_amd64 : List Instr
servicemain_amd64 =
    movl (from (reg cx)) (global Symbol.s_argc)
    ∷ movl (from (reg dx)) (global Symbol.s_argv)
    ∷ sub_sp 32
    ∷ movq (from (global Symbol.s_name)) (reg cx)
    ∷ movq address_of_handler (reg dx)
    ∷ movq (imm 0) (reg r8)
    ∷ movq (from (global Symbol.c_register_service_ctrl_handler_ex)) (reg ax)
    ∷ call ax
    ∷ cmp ax 0
    ∷ je_exit
    ∷ movq (from (reg ax)) (global Symbol.ss_handle)
    ∷ movq (from (global Symbol.go_waits_h)) (reg cx)
    ∷ movq (from (global Symbol.c_set_event)) (reg ax)
    ∷ call ax
    ∷ movq (from (global Symbol.c_waits_h)) (reg cx)
    ∷ movq (imm 4294967295) (reg dx)
    ∷ movq (from (global Symbol.c_wait_for_single_object)) (reg ax)
    ∷ call ax
    ∷ exit_label
    ∷ add_sp 32
    ∷ ret
    ∷ []

abbrev pub servicectlhandler_386 : List Instr
servicectlhandler_386 = movl (from (global Symbol.ctl_handler_proc)) (reg cx) ∷ jmp cx ∷ []

abbrev pub servicectlhandler_amd64 : List Instr
servicectlhandler_amd64 = movq (from (global Symbol.ctl_handler_proc)) (reg ax) ∷ jmp ax ∷ []

-- Where Windows enters servicemain, with its two arguments on the stack or in registers, and the
-- address to return to.
abbrev pub entry : Isa → (return_to argc argv : ℕ) → Machine → Machine
entry x86 return_to argc argv m = record m {
  sp = 12;
  memory = λ d.
      if d == 12
      then num return_to
      else if d == 8
      then num argc
      else if d == 4
      then num argv
      else m.memory d;
}
entry amd64 return_to argc argv m = record m {
  sp = 8;
  regs = λ r. elim r [ cx ↦ num argc | dx ↦ num argv | q ↦ m.regs q ];
  memory = λ d. if d == 8 then num return_to else m.memory d;
}

abbrev pub servicemain : Isa → List Instr
servicemain x86 = servicemain_386
servicemain amd64 = servicemain_amd64

abbrev pub run_main : Isa → (handler : ℕ) → Windows → (return_to argc argv : ℕ) → Machine → Flow
run_main isa handler w return_to argc argv m =
    exec isa handler w (servicemain isa) false (entry isa return_to argc argv m)

abbrev pub servicectlhandler : Isa → List Instr
servicectlhandler x86 = servicectlhandler_386
servicectlhandler amd64 = servicectlhandler_amd64
