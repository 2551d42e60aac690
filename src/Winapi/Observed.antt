-- ===== src/Winapi/Observed.antt =====
-- Code that leaves alone what is read off the trace of calls.
use winsvc.Prelude.{◌≡◌, ◌∙◌}
use winsvc.Winapi.System.{Os, Trace, Outcome, ok, err, panic, M, resume, deferred, ◌>>=◌}

module _ {X : Type 0} (observed : Trace → X) where
  -- However it ends, what is observed is what was observed before.
  abbrev pub Keeps : {A : Type 0} → M A → Type 0
  Keeps m = (os : Os) (t : Trace) → observed (m os t).1 ≡ observed t

  resume-Keeps :
      {A B : Type 0} (x : Outcome A × Trace) (f : A → M B) (os : Os) (before : X)
      → observed x.1 ≡ before
      → ((a : A) → Keeps (f a))
      → observed (resume x f os).1 ≡ before
  resume-Keeps (ok a, t) f os before h k = k a os t ∙ h
  resume-Keeps (err e, t) f os before h k = h
  resume-Keeps (panic, t) f os before h k = h

  pub bind-Keeps :
      {A B : Type 0} (m : M A) (f : A → M B) → Keeps m → ((a : A) → Keeps (f a)) → Keeps (m >>= f)
  bind-Keeps m f h k os t = resume-Keeps (m os t) f os (observed t) (h os t) k

  pub deferred-Keeps :
      {A : Type 0} (d : M (Unit {0})) (m : M A) → Keeps d → Keeps m → Keeps (deferred d m)
  deferred-Keeps d m h k os t = h os (m os t).1 ∙ k os t
