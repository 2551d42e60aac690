-- ===== src/Svc/Loop/Rule.antt =====
-- The rule by which facts about one select become facts about the loop of run.
use winsvc.Prelude.{List, [], ◌∷◌, All, refl}
use mathlib.Core.List.{Memᴰ}
use winsvc.Winapi.System.{Os, Trace, Outcome, ok, err, panic, M, resume}
use winsvc.Svc.Types.{ExitCode, Service}
use winsvc.Svc.Loop.{Offer, Round, Turn, go_on, break_loop, next_round, select, run_loop}

-- A run that neither fails nor panics: P where it can go on, Q where it broke off.
abbrev pub Ends :
    (Round → Trace → Type 0) → (ExitCode → Round → Trace → Type 0) → Outcome Turn × Trace → Type 0
Ends P Q (ok (go_on p), t) = P p t
Ends P Q (ok (break_loop ec p), t) = Q ec p t
Ends P Q (err e, t) = ⊥
Ends P Q (panic, t) = ⊥

-- What ends with P, and goes on to what ends with R.
pub Ends-next_round :
    (P R : Round → Trace → Type 0) (Q : ExitCode → Round → Trace → Type 0) (os : Os)
    (rest : Round → M Turn)
    → ((p : Round) (t : Trace) → P p t → Ends R Q (rest p os t))
    → (x : Outcome Turn × Trace) → Ends P Q x
    → Ends R Q (resume x (next_round rest) os)
Ends-next_round P R Q os rest ih (ok (go_on p), t) v = ih p t v
Ends-next_round P R Q os rest ih (ok (break_loop ec p), t) v = v
Ends-next_round P R Q os rest ih (err e, t) v = v
Ends-next_round P R Q os rest ih (panic, t) v = v

module _ (P : Round → Trace → Type 0) (Q : ExitCode → Round → Trace → Type 0) (s : Service)
    (os : Os) where
  -- Whatever a select on this offer meets, it keeps P.
  abbrev pub Keeps : Offer → Type 0
  Keeps o = (p : Round) (t : Trace) → P p t → Ends P Q (select s o p os t)

  pub run_loop-Ends :
      (offers : List Offer)
      → All Keeps offers
      → (p : Round) (t : Trace) → P p t
      → Ends P Q (run_loop s offers p os t)
  unfolding run_loop
  run_loop-Ends [] k p t v = v
  run_loop-Ends (o ∷ offers) (h, k) p t v =
      Ends-next_round P P Q os (run_loop s offers) (run_loop-Ends offers k) (select s o p os t)
        (h p t v)

-- A weaker statement of the end.
pub Ends-mono :
    (P P' : Round → Trace → Type 0) (Q Q' : ExitCode → Round → Trace → Type 0)
    (x : Outcome Turn × Trace)
    → ((p : Round) (t : Trace) → P p t → P' p t)
    → ((ec : ExitCode) (p : Round) (t : Trace) → Q ec p t → Q' ec p t)
    → Ends P Q x
    → Ends P' Q' x
Ends-mono P P' Q Q' (ok (go_on p), t) f g h = f p t h
Ends-mono P P' Q Q' (ok (break_loop ec p), t) f g h = g ec p t h
Ends-mono P P' Q Q' (err e, t) f g h = h
Ends-mono P P' Q Q' (panic, t) f g h = h

-- What holds of each element holds of all.
pub All-of_mem {ℓ κ} :
    {A : Type ℓ} (P : A → Type κ) (xs : List A) → ((x : A) → Memᴰ x xs → P x) → All P xs
All-of_mem P [] h = tt
All-of_mem P (x ∷ xs) h = (h x (Memᴰ.head refl), All-of_mem P xs (λ y m. h y (Memᴰ.tail m)))
