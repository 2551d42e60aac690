-- ===== src/Svc/Machine/Main/Handler.antt =====
-- svc/sys_386.s and svc/sys_amd64.s: servicectlhandler.
use winsvc.Prelude.{ℕ, ◌≡◌, refl, false}
use winsvc.Svc.Machine.{
  Isa, x86, amd64, num, bx, cx, dx, si, di, bp, r8, Machine, Windows, Flow, on, skip, gone, fault,
  exec, step,
}
use winsvc.Svc.Machine.Main.{servicectlhandler}

-- The registers of the first arguments.
abbrev ArgumentsKept : Isa → Machine → Machine → Type 0
ArgumentsKept x86 m m' = Unit
ArgumentsKept amd64 m m' =
    (m'.regs cx ≡ m.regs cx) × (m'.regs dx ≡ m.regs dx) × (m'.regs r8 ≡ m.regs r8)

-- Control goes to the callback of Run, which finds the arguments and the return address where
-- Windows left them.
abbrev EndsForwarded : Isa → Machine → Flow → Type 0
EndsForwarded isa m (gone v m') =
    (v ≡ num m.globals.ctl_handler_proc)
    × (m'.sp ≡ m.sp)
    × (m'.memory ≡ m.memory)
    × (m'.regs bx ≡ m.regs bx)
    × (m'.regs si ≡ m.regs si)
    × (m'.regs di ≡ m.regs di)
    × (m'.regs bp ≡ m.regs bp)
    × ArgumentsKept isa m m'
EndsForwarded isa m (on m') = ⊥
EndsForwarded isa m (skip m') = ⊥
EndsForwarded isa m fault = ⊥

servicectlhandler-EndsForwarded :
    (isa : Isa) (handler : ℕ) (w : Windows) (m : Machine)
    → EndsForwarded isa m (exec isa handler w (servicectlhandler isa) false m)
unfolding exec step
servicectlhandler-EndsForwarded x86 handler w m = (refl, refl, refl, refl, refl, refl, refl, tt)
servicectlhandler-EndsForwarded amd64 handler w m =
    (refl, refl, refl, refl, refl, refl, refl, (refl, refl, refl))
