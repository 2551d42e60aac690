-- ===== src/Svc/Machine/Main/Returns.antt =====
-- What servicemain does, by either of its two texts.
use winsvc.Prelude.{
  ℕ, ◌≡◌, ◌≢◌, ◌⊎◌, ◌%◌, ◌^◌, ◌+◌, ◌*◌, ◌/◌, inl, inr, refl, Bool, true, false, ◌∷◌, ◌==◌, arith,
}
use winsvc.Svc.Machine.{
  Isa, x86, amd64, num, bx, si, di, bp, Globals, Called, Machine, Windows, Flow, on, skip, gone,
  fault, exec, step,
}
use winsvc.Svc.Machine.Main.{run_main}

module _ (handler : ℕ) (g : Globals) where
  -- RegisterServiceCtrlHandlerEx with the name, the handler and no context.
  abbrev pub Registers : Called → Type 0
  Registers c =
      (c.address ≡ num g.c_register_service_ctrl_handler_ex)
      × (c.arg1 ≡ num g.s_name)
      × (c.arg2 ≡ num handler)
      × (c.arg3 ≡ num 0)
      × (c.depth ≡ 40)

  abbrev pub Sets : Called → Type 0
  Sets c = (c.address ≡ num g.c_set_event) × (c.arg1 ≡ num g.go_waits_h) × (c.depth ≡ 40)

  -- A wait without an end.
  abbrev pub Waits : Called → Type 0
  Waits c =
      (c.address ≡ num g.c_wait_for_single_object)
      × (c.arg1 ≡ num g.c_waits_h)
      × (c.arg2 ≡ num 0xffffffff)
      × (c.depth ≡ 40)

-- The variables with the arguments in them. On amd64 MOVL stores the lower halves only.
abbrev pub stored : Isa → (argc argv : ℕ) → Globals → Globals
stored x86 argc argv g = record g { s_argc = argc; s_argv = argv }
stored amd64 argc argv g = record g {
  s_argc = g.s_argc / 2 ^ 32 * 2 ^ 32 + argc % 2 ^ 32;
  s_argv = g.s_argv / 2 ^ 32 * 2 ^ 32 + argv % 2 ^ 32;
}

abbrev pub KeepsRegs : Machine → Machine → Type 0
KeepsRegs m m' =
    (m'.regs bx ≡ m.regs bx)
    × (m'.regs si ≡ m.regs si)
    × (m'.regs di ≡ m.regs di)
    × (m'.regs bp ≡ m.regs bp)

-- The calls and the variables behind it, for the answer to the first call, where the arguments are
-- stored in g.
abbrev pub Does : (handler : ℕ) → Windows → Globals → (before after : Machine) → Type 0
Does handler w g m m' =
    (c₁ : Called) × Registers handler g c₁
    × (((w.result (c₁ ∷ m.called) ≡ 0) × (m'.called ≡ c₁ ∷ m.called) × (m'.globals ≡ g))
        ⊎ ((w.result (c₁ ∷ m.called) ≢ 0)
            × (m'.globals ≡ record g { ss_handle = w.result (c₁ ∷ m.called) })
            × ((c₂ : Called) × Sets handler g c₂
                × ((c₃ : Called) × Waits handler g c₃ × (m'.called ≡ c₃ ∷ c₂ ∷ c₁ ∷ m.called)))))

abbrev pub EndsMain :
    Isa → (handler : ℕ) → Windows → (return_to argc argv : ℕ) → Machine → Flow → Type 0
EndsMain isa handler w return_to argc argv m (gone v m') =
    (v ≡ num return_to)
    × (m'.sp ≡ 0)
    × KeepsRegs m m'
    × Does handler w (stored isa argc argv m.globals) m m'
EndsMain isa handler w return_to argc argv m (on m') = ⊥
EndsMain isa handler w return_to argc argv m (skip m') = ⊥
EndsMain isa handler w return_to argc argv m fault = ⊥

-- The first call, by either text.
abbrev first_call : (handler : ℕ) → Machine → Called
first_call handler m = record {
  address = num m.globals.c_register_service_ctrl_handler_ex;
  arg1 = num m.globals.s_name;
  arg2 = num handler;
  arg3 = num 0;
  depth = 40;
}

module _ (handler : ℕ) (w : Windows) (return_to argc argv : ℕ) (m : Machine) where
  x86-EndsMain :
      (refused : Bool)
      → (w.result (first_call handler m ∷ m.called) == 0) ≡ refused
      → EndsMain x86 handler w return_to argc argv m (run_main x86 handler w return_to argc argv m)
  unfolding exec step
  x86-EndsMain true e = rw (e) (
    refl,
    refl,
    (refl, refl, refl, refl),
    (first_call handler m, (refl, refl, refl, refl, refl), inl (ground arith, refl, refl)),
  )
  x86-EndsMain false e = rw (e) (
    refl,
    refl,
    (refl, refl, refl, refl),
    (
      first_call handler m,
      (refl, refl, refl, refl, refl),
      inr (ground arith, refl, (_, (refl, refl, refl), (_, (refl, refl, refl, refl), refl))),
    ),
  )

  amd64-EndsMain :
      (refused : Bool)
      → (w.result (first_call handler m ∷ m.called) == 0) ≡ refused
      → EndsMain amd64 handler w return_to argc argv m
          (run_main amd64 handler w return_to argc argv m)
  unfolding exec step
  amd64-EndsMain true e = rw (e) (
    refl,
    refl,
    (refl, refl, refl, refl),
    (first_call handler m, (refl, refl, refl, refl, refl), inl (ground arith, refl, refl)),
  )
  amd64-EndsMain false e = rw (e) (
    refl,
    refl,
    (refl, refl, refl, refl),
    (
      first_call handler m,
      (refl, refl, refl, refl, refl),
      inr (ground arith, refl, (_, (refl, refl, refl), (_, (refl, refl, refl, refl), refl))),
    ),
  )

-- servicemain for both processors, whatever the procedures of Windows answer and leave in the
-- registers and on the stack that are theirs. It returns to its caller, with its two arguments taken
-- off the stack on 386 and the registers that it must keep as they were. It has stored the
-- arguments, on amd64 their lower halves, and registered the handler under the service's name;
-- where that was refused it did no more, and otherwise it stored the status handle, set the event
-- on which run waits and then waited, without an end, for the other one. Each call is made with the
-- stack pointer 40 bytes below where the caller had it before the call of servicemain.
pub run_main-EndsMain :
    (isa : Isa) (handler : ℕ) (w : Windows) (return_to argc argv : ℕ) (m : Machine)
    → EndsMain isa handler w return_to argc argv m (run_main isa handler w return_to argc argv m)
run_main-EndsMain x86 handler w return_to argc argv m =
    x86-EndsMain handler w return_to argc argv m (w.result (first_call handler m ∷ m.called) == 0)
      refl
run_main-EndsMain amd64 handler w return_to argc argv m =
    amd64-EndsMain handler w return_to argc argv m (w.result (first_call handler m ∷ m.called) == 0)
      refl
