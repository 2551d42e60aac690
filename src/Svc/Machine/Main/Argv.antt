-- ===== src/Svc/Machine/Main/Argv.antt =====
-- svc/sys_amd64.s: servicemain stores the address of the arguments by MOVL.
use winsvc.Prelude.{ℕ, ◌≡◌, ◌≢◌, ◌<◌, ◌≤◌, inl, inr, ap, ◌%◌, ◌^◌, arith}
use winsvc.Svc.Machine.{amd64, Globals, Machine, Windows, Flow, on, skip, gone, fault}
use winsvc.Svc.Machine.Main.{run_main}
use winsvc.Svc.Machine.Main.Returns.{stored, Does, EndsMain, run_main-EndsMain}

-- sArgv behind servicemain: the lower half of the address, which is the address where it is below
-- 2^32 and another one where it is not.
abbrev pub EndsHalved : (argv : ℕ) → Flow → Type 0
EndsHalved argv (gone v m) =
    (m.globals.s_argv ≡ argv % 2 ^ 32)
    × (argv < 2 ^ 32 → m.globals.s_argv ≡ argv)
    × (2 ^ 32 ≤ argv → m.globals.s_argv ≢ argv)
EndsHalved argv (on m) = ⊥
EndsHalved argv (skip m) = ⊥
EndsHalved argv fault = ⊥

Does-argv :
    (handler : ℕ) (w : Windows) (g : Globals) (m m' : Machine)
    → Does handler w g m m'
    → m'.globals.s_argv ≡ g.s_argv
Does-argv handler w g m m' (c₁, registers, inl (f, l, n)) = ap (λ x. x.s_argv) n
Does-argv handler w g m m' (c₁, registers, inr (f, n, more)) = ap (λ x. x.s_argv) n

EndsMain-EndsHalved :
    (handler : ℕ) (w : Windows) (return_to argc argv : ℕ) (m : Machine) (x : Flow)
    → m.globals.s_argv < 2 ^ 32
    → EndsMain amd64 handler w return_to argc argv m x
    → EndsHalved argv x
EndsMain-EndsHalved handler w return_to argc argv m (gone v m') low (back, sp, regs, does) =
    let e = Does-argv handler w (stored amd64 argc argv m.globals) m m' does in
    (
      omega (arith, e, low),
      (λ h. omega (arith, e, low, h)),
      (λ h same. omega (arith, e, low, h, same)),
    )
EndsMain-EndsHalved handler w return_to argc argv m (on m') low v = absurd v
EndsMain-EndsHalved handler w return_to argc argv m (skip m') low v = absurd v
EndsMain-EndsHalved handler w return_to argc argv m fault low v = absurd v

-- Where the upper half of sArgv is 0, as it is when the process starts, run finds there the lower
-- half of the address that Windows passed to servicemain: the same address where that is below
-- 2^32, and another one where it is not.
pub servicemain-EndsHalved :
    (handler : ℕ) (w : Windows) (return_to argc argv : ℕ) (m : Machine)
    → m.globals.s_argv < 2 ^ 32
    → EndsHalved argv (run_main amd64 handler w return_to argc argv m)
servicemain-EndsHalved handler w return_to argc argv m low =
    EndsMain-EndsHalved handler w return_to argc argv m
      (run_main amd64 handler w return_to argc argv m) low
      (run_main-EndsMain amd64 handler w return_to argc argv m)
