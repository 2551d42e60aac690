-- ===== src/Svc/Machine/Parts.antt =====
-- svc/sys_386.s and svc/sys_amd64.s: the state of a machine, and the instructions of these files.
use winsvc.Prelude.{ℕ, Bool, List}

pub data Isa : Type 0 where
  x86 : Isa
  amd64 : Isa

pub data Value : Type 0 where
  num : ℕ → Value
  stack : (depth : ℕ) → Value

pub data Reg : Type 0 where
  ax bx cx dx si di bp r8 : Reg

-- The variables of package svc that the assembly reads and writes.
pub data Symbol : Type 0 where
  go_waits_h c_waits_h ss_handle s_name s_argc s_argv ctl_handler_proc : Symbol
  c_set_event c_wait_for_single_object c_register_service_ctrl_handler_ex : Symbol

pub record Globals : Type 0 where
  pub go_waits_h : ℕ
  pub c_waits_h : ℕ
  pub ss_handle : ℕ
  pub s_name : ℕ
  pub s_argc : ℕ
  pub s_argv : ℕ
  pub ctl_handler_proc : ℕ
  pub c_set_event : ℕ
  pub c_wait_for_single_object : ℕ
  pub c_register_service_ctrl_handler_ex : ℕ

-- A call, with its first three arguments and the depth of the stack pointer at it.
pub record Called : Type 0 where
  pub address : Value
  pub arg1 : Value
  pub arg2 : Value
  pub arg3 : Value
  pub depth : ℕ

pub record Machine : Type 0 where
  pub regs : Reg → Value
  pub sp : ℕ
  pub memory : ℕ → Value
  pub is_zero : Bool
  pub globals : Globals
  pub called : List Called

-- What the procedures do after the calls so far. On 386 they may or may not take their arguments
-- off the stack.
pub record Windows : Type 0 where
  pub result : List Called → ℕ
  pub junk : List Called → Reg → Value
  pub scratch : List Called → ℕ → Value
  pub sp_after : List Called → ℕ

pub data Place : Type 0 where
  reg : Reg → Place
  sp_reg : Place
  at_sp : (offset : ℕ) → Place
  global : Symbol → Place

pub data Source : Type 0 where
  from : Place → Source
  imm : ℕ → Source
  address_of_handler : Source

pub data Instr : Type 0 where
  movl movq : Source → Place → Instr
  push pop : Reg → Instr
  sub_sp add_sp : ℕ → Instr
  cmp : Reg → ℕ → Instr
  je_exit exit_label : Instr
  call jmp : Reg → Instr
  ret : Instr
