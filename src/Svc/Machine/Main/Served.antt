-- ===== src/Svc/Machine/Main/Served.antt =====
-- svc/service.go with the assembly part: servicemain behind init and Run.
use winsvc.Prelude.{
  ℕ, ◌≡◌, ◌≢◌, ◌<◌, ◌⊎◌, inl, inr, refl, ap, ◌∙◌, ◌^◌, Option, some, List, ◌∷◌, arith,
}
use winsvc.Winapi.Procedures.{Procedure, kernel32, advapi32}
use winsvc.Winapi.Constants.{infinite}
use winsvc.Svc.Types.{Service}
use winsvc.Svc.Globals.{unset, init, publish}
use winsvc.Svc.Machine.{
  Isa, x86, amd64, Value, num, Globals, Called, Machine, Windows, Flow, on, skip, gone, fault,
}
use winsvc.Svc.Machine.Main.{run_main}
use winsvc.Svc.Machine.Main.Returns.{stored, Does, EndsMain, run_main-EndsMain}

-- What init leaves where it does not panic.
abbrev Initialised : (Procedure → Option ℕ) → Globals → Type 0
Initialised find g =
    (find (kernel32 "SetEvent") ≡ some g.c_set_event)
    × (find (kernel32 "WaitForSingleObject") ≡ some g.c_wait_for_single_object)
    × (find (advapi32 "RegisterServiceCtrlHandlerExW") ≡ some g.c_register_service_ctrl_handler_ex)
    × (g.s_argc ≡ 0)
    × (g.s_argv ≡ 0)

init-Initialised :
    (find : Procedure → Option ℕ) (g : Globals) → init find unset ≡ some g → Initialised find g
unfolding init
init-Initialised find g h = ground arith

-- The address is the one where the procedure was found.
abbrev pub Finds : (Procedure → Option ℕ) → Procedure → Value → Type 0
Finds find p v = (address : ℕ) × (find p ≡ some address) × (v ≡ num address)

-- What servicemain is for, where the name and the handler stand at these addresses: the arguments
-- are stored; the handler is registered under the name; and where that was granted the status
-- handle is stored, then the event on which run waits is set, and then the one waited for that
-- run sets at its end.
module _ (find : Procedure → Option ℕ) (s : Service) (name handler : ℕ) (w : Windows)
    (return_to argc argv : ℕ) (before : List Called) where
  abbrev pub EndsServing : Flow → Type 0
  EndsServing (gone v m) =
      (v ≡ num return_to)
      × (m.globals.s_argc ≡ argc)
      × (m.globals.s_argv ≡ argv)
      × ((c₁ : Called) × Finds find (advapi32 "RegisterServiceCtrlHandlerExW") c₁.address
          × (c₁.arg1 ≡ num name)
          × (c₁.arg2 ≡ num handler)
          × (((w.result (c₁ ∷ before) ≡ 0) × (m.called ≡ c₁ ∷ before))
              ⊎ ((m.globals.ss_handle ≡ w.result (c₁ ∷ before))
                  × (m.globals.ss_handle ≢ 0)
                  × ((c₂ : Called) × Finds find (kernel32 "SetEvent") c₂.address
                      × (c₂.arg1 ≡ num s.go_waits)
                      × ((c₃ : Called) × Finds find (kernel32 "WaitForSingleObject") c₃.address
                          × (c₃.arg1 ≡ num s.c_waits)
                          × (c₃.arg2 ≡ num infinite)
                          × (m.called ≡ c₃ ∷ c₂ ∷ c₁ ∷ before))))))
  EndsServing (on m) = ⊥
  EndsServing (skip m) = ⊥
  EndsServing fault = ⊥

-- The variables of a service whose arguments are stored.
abbrev Ready : (Procedure → Option ℕ) → Service → (name argc argv : ℕ) → Globals → Type 0
Ready find s name argc argv g =
    (find (kernel32 "SetEvent") ≡ some g.c_set_event)
    × (find (kernel32 "WaitForSingleObject") ≡ some g.c_wait_for_single_object)
    × (find (advapi32 "RegisterServiceCtrlHandlerExW") ≡ some g.c_register_service_ctrl_handler_ex)
    × (g.s_name ≡ name)
    × (g.go_waits_h ≡ s.go_waits)
    × (g.c_waits_h ≡ s.c_waits)
    × (g.s_argc ≡ argc)
    × (g.s_argv ≡ argv)

stored-Ready :
    (isa : Isa) (find : Procedure → Option ℕ) (g : Globals) (s : Service) (name proc argc argv : ℕ)
    → Initialised find g
    → argc < 2 ^ 32
    → argv < 2 ^ 32
    → Ready find s name argc argv (stored isa argc argv (publish s name proc g))
unfolding publish
stored-Ready x86 find g s name proc argc argv i h k = ground arith
stored-Ready amd64 find g s name proc argc argv (set, wait, register, z, z') h k =
    (set, wait, register, refl, refl, refl, rw (z) (omega (arith, h)), rw (z') (omega (arith, k)))

module _ (find : Procedure → Option ℕ) (s : Service) (name handler : ℕ) (w : Windows)
    (return_to argc argv : ℕ) (g : Globals) (m : Machine)
    (ready : Ready find s name argc argv g) where
  Does-EndsServing :
      (v : Value) (m' : Machine)
      → v ≡ num return_to
      → Does handler w g m m'
      → EndsServing find s name handler w return_to argc argv m.called (gone v m')
  Does-EndsServing v m' back (c₁, (a, b, c, d, e), inl (f, l, n)) =
      let (set, wait, register, named, goes, waits, count, values) = ready in
      (
        back,
        ap (λ x. x.s_argc) n ∙ count,
        ap (λ x. x.s_argv) n ∙ values,
        (c₁, (g.c_register_service_ctrl_handler_ex, register, a), b ∙ ap num named, c, inl (f, l)),
      )
  Does-EndsServing v m' back
        (c₁, (a, b, c, d, e), inr (f, n, (c₂, (o, p, q), (c₃, (t, u, x, y), l)))) =
      let (set, wait, register, named, goes, waits, count, values) = ready in
      (
        back,
        ap (λ x. x.s_argc) n ∙ count,
        ap (λ x. x.s_argv) n ∙ values,
        (
          c₁,
          (g.c_register_service_ctrl_handler_ex, register, a),
          b ∙ ap num named,
          c,
          inr (
            ap (λ x. x.ss_handle) n,
            ground (arith, f, ap (λ x. x.ss_handle) n),
            (
              c₂,
              (g.c_set_event, set, o),
              p ∙ ap num goes,
              (c₃, (g.c_wait_for_single_object, wait, t), u ∙ ap num waits, x, l),
            ),
          ),
        ),
      )

EndsMain-EndsServing :
    (isa : Isa) (find : Procedure → Option ℕ) (g : Globals) (s : Service) (name proc handler : ℕ)
    (w : Windows) (return_to argc argv : ℕ) (m : Machine) (x : Flow)
    → Initialised find g
    → argc < 2 ^ 32
    → argv < 2 ^ 32
    → EndsMain isa handler w return_to argc argv (record m { globals = publish s name proc g }) x
    → EndsServing find s name handler w return_to argc argv m.called x
EndsMain-EndsServing isa find g s name proc handler w return_to argc argv m (gone v m') i h k
      (back, sp, regs, does) =
    Does-EndsServing find s name handler w return_to argc argv
      (stored isa argc argv (publish s name proc g)) (record m { globals = publish s name proc g })
      (stored-Ready isa find g s name proc argc argv i h k) v m' back does
EndsMain-EndsServing isa find g s name proc handler w return_to argc argv m (on m') i h k v =
    absurd v
EndsMain-EndsServing isa find g s name proc handler w return_to argc argv m (skip m') i h k v =
    absurd v
EndsMain-EndsServing isa find g s name proc handler w return_to argc argv m fault i h k v = absurd v

-- Go and the assembly part agree, for arguments below 2^32. Behind init, where it did not panic,
-- and the assignments of Run, servicemain returns to Windows with its arguments stored for run. It
-- calls the procedures that init looked up: it registers the handler under the name of Run, and,
-- unless that is refused, stores the status handle, sets the event on which run waits, and waits
-- without an end for the one that run sets.
pub servicemain-EndsServing :
    (isa : Isa) (find : Procedure → Option ℕ) (g : Globals) (s : Service) (name proc handler : ℕ)
    (w : Windows) (return_to argc argv : ℕ) (m : Machine)
    → init find unset ≡ some g
    → argc < 2 ^ 32
    → argv < 2 ^ 32
    → EndsServing find s name handler w return_to argc argv m.called
        (run_main isa handler w return_to argc argv (record m { globals = publish s name proc g }))
servicemain-EndsServing isa find g s name proc handler w return_to argc argv m i h k =
    EndsMain-EndsServing isa find g s name proc handler w return_to argc argv m
      (run_main isa handler w return_to argc argv (record m { globals = publish s name proc g }))
      (init-Initialised find g i) h k
      (run_main-EndsMain isa handler w return_to argc argv
        (record m { globals = publish s name proc g }))
