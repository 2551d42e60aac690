-- ===== src/Svc/Machine.antt =====
-- svc/sys_386.s and svc/sys_amd64.s: the instructions that these files use, over a machine with the
-- two calling conventions. An address on the stack is its depth in bytes below the top of the frame
-- that the caller left; a procedure of Windows is one that keeps to the convention, with any result
-- and any junk where the convention lets it leave some.
pub mod Parts
pub use Parts.*
pub mod Main
use winsvc.Prelude.{
  ℕ, ◌+◌, ◌-◌, ◌*◌, ◌/◌, ◌%◌, ◌^◌, Bool, true, false, not, ◌&&◌, List, [], ◌∷◌, leb, ◌==◌,
  if◌then◌else◌,
}

abbrev pub word : Isa → ℕ
word x86 = 4
word amd64 = 8

abbrev same : Reg → Reg → Bool
same ax ax = true
same bx bx = true
same cx cx = true
same dx dx = true
same si si = true
same di di = true
same bp bp = true
same r8 r8 = true
same _ _ = false

abbrev pub set_reg : Reg → Value → (Reg → Value) → Reg → Value
set_reg r v regs q = if same q r then v else regs q

abbrev pub poke : (depth : ℕ) → Value → (ℕ → Value) → ℕ → Value
poke d v memory e = if e == d then v else memory e

abbrev pub load : Symbol → Globals → ℕ
load Symbol.go_waits_h g = g.go_waits_h
load Symbol.c_waits_h g = g.c_waits_h
load Symbol.ss_handle g = g.ss_handle
load Symbol.s_name g = g.s_name
load Symbol.s_argc g = g.s_argc
load Symbol.s_argv g = g.s_argv
load Symbol.ctl_handler_proc g = g.ctl_handler_proc
load Symbol.c_set_event g = g.c_set_event
load Symbol.c_wait_for_single_object g = g.c_wait_for_single_object
load Symbol.c_register_service_ctrl_handler_ex g = g.c_register_service_ctrl_handler_ex

abbrev pub store : Symbol → ℕ → Globals → Globals
store Symbol.go_waits_h n g = record g { go_waits_h = n }
store Symbol.c_waits_h n g = record g { c_waits_h = n }
store Symbol.ss_handle n g = record g { ss_handle = n }
store Symbol.s_name n g = record g { s_name = n }
store Symbol.s_argc n g = record g { s_argc = n }
store Symbol.s_argv n g = record g { s_argv = n }
store Symbol.ctl_handler_proc n g = record g { ctl_handler_proc = n }
store Symbol.c_set_event n g = record g { c_set_event = n }
store Symbol.c_wait_for_single_object n g = record g { c_wait_for_single_object = n }
store Symbol.c_register_service_ctrl_handler_ex n g = record g {
  c_register_service_ctrl_handler_ex = n;
}

-- What follows an instruction: the next one, the label exit, or code elsewhere. A fault is what
-- these files never do: a number as the stack pointer, an address on the stack in a variable.
pub data Flow : Type 0 where
  on : Machine → Flow
  skip : Machine → Flow
  gone : Value → Machine → Flow
  fault : Flow

abbrev pub read : Place → Machine → Value
read (reg r) m = m.regs r
read sp_reg m = stack m.sp
read (at_sp k) m = m.memory (m.sp - k)
read (global s) m = num (load s m.globals)

-- The address of servicectlhandler is an argument.
abbrev pub value : (handler : ℕ) → Source → Machine → Value
value handler (from p) m = read p m
value handler (imm n) m = num n
value handler address_of_handler m = num handler

abbrev pub write_global : Symbol → Value → Machine → Flow
write_global s (num n) m = on (record m { globals = store s n m.globals })
write_global s (stack d) m = fault

abbrev pub write_sp : Value → Machine → Flow
write_sp (num n) m = fault
write_sp (stack d) m = on (record m { sp = d })

abbrev pub write : Place → Value → Machine → Flow
write (reg r) v m = on (record m { regs = set_reg r v m.regs })
write sp_reg v m = write_sp v m
write (at_sp k) v m = on (record m { memory = poke (m.sp - k) v m.memory })
write (global s) v m = write_global s v m

-- MOVL stores four bytes: on 386 all of a variable, on amd64 the lower half of one.
abbrev pub low_word : Isa → (old new : Value) → Value
low_word x86 old new = new
low_word amd64 (num old) (num new) = num (old / 2 ^ 32 * 2 ^ 32 + new % 2 ^ 32)
low_word amd64 old new = new

-- The arguments: on the stack, or in registers.
abbrev pub called_at : Isa → Value → Machine → Called
called_at x86 address m = record {
  address = address;
  arg1 = m.memory m.sp;
  arg2 = m.memory (m.sp - 4);
  arg3 = m.memory (m.sp - 8);
  depth = m.sp;
}
called_at amd64 address m = record {
  address = address;
  arg1 = m.regs cx;
  arg2 = m.regs dx;
  arg3 = m.regs r8;
  depth = m.sp;
}

-- What a procedure may write to: its arguments on 386, the 32 bytes that the caller reserves on
-- amd64, and all that is deeper.
abbrev pub owned : Isa → ℕ
owned x86 = 12
owned amd64 = 32

-- The registers that a procedure keeps.
abbrev pub is_kept : Reg → Bool
is_kept bx = true
is_kept si = true
is_kept di = true
is_kept bp = true
is_kept _ = false

abbrev pub regs_after : Windows → List Called → (Reg → Value) → Reg → Value
regs_after w calls regs ax = num (w.result calls)
regs_after w calls regs r = if is_kept r then regs r else w.junk calls r

abbrev pub sp_behind : Isa → Windows → List Called → ℕ → ℕ
sp_behind x86 w calls sp = w.sp_after calls
sp_behind amd64 w calls sp = sp

abbrev pub after_call : Isa → Windows → Value → Machine → Machine
after_call isa w address m =
    let calls = called_at isa address m ∷ m.called in
    record m {
      regs = regs_after w calls m.regs;
      sp = sp_behind isa w calls m.sp;
      memory = λ d. if leb d (m.sp - owned isa) then m.memory d else w.scratch calls d;
      called = calls;
    }

abbrev pub is_num : Value → ℕ → Bool
is_num (num k) n = k == n
is_num (stack d) n = false

unfoldable pub step : Isa → (handler : ℕ) → Windows → Instr → Machine → Flow
step isa handler w (movl s p) m = write p (low_word isa (read p m) (value handler s m)) m
step isa handler w (movq s p) m = write p (value handler s m) m
step isa handler w (push r) m =
    let sp = m.sp + word isa in on (record m { sp = sp; memory = poke sp (m.regs r) m.memory })
step isa handler w (pop r) m =
    on (record m { sp = m.sp - word isa; regs = set_reg r (m.memory m.sp) m.regs })
step isa handler w (sub_sp n) m = on (record m { sp = m.sp + n })
step isa handler w (add_sp n) m = on (record m { sp = m.sp - n })
step isa handler w (cmp r n) m = on (record m { is_zero = is_num (m.regs r) n })
step isa handler w je_exit m = if m.is_zero then skip m else on m
step isa handler w exit_label m = on m
step isa handler w (call r) m = on (after_call isa w (m.regs r) m)
step isa handler w (jmp r) m = gone (m.regs r) m
step isa handler w ret m = gone (m.memory m.sp) (record m { sp = m.sp - word isa })

abbrev pub is_exit : Instr → Bool
is_exit exit_label = true
is_exit _ = false

abbrev pub follow : (skipping : Bool → Machine → Flow) → Flow → Flow
follow rest (on m) = rest false m
follow rest (skip m) = rest true m
follow rest (gone v m) = gone v m
follow rest fault = fault

-- The code up to a jump out of it; where it skips, only the label counts.
unfoldable pub exec :
    Isa → (handler : ℕ) → Windows → List Instr → (skipping : Bool) → Machine → Flow
exec isa handler w [] skipping m = fault
exec isa handler w (i ∷ code) skipping m =
    follow (exec isa handler w code)
      (if skipping && not (is_exit i) then skip m else step isa handler w i m)
