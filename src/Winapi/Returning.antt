-- ===== src/Winapi/Returning.antt =====
-- Code that returns, with or without an error: it does not panic.
use winsvc.Prelude.{◌≢◌, refl}
use winsvc.Winapi.System.{Os, Trace, Outcome, ok, err, panic, M, resume, deferred, ◌>>=◌}

abbrev pub Returns : {A : Type 0} → M A → Type 0
Returns m = (os : Os) (t : Trace) → (m os t).0 ≢ panic

resume-Returns :
    {A B : Type 0} (x : Outcome A × Trace) (f : A → M B) (os : Os)
    → x.0 ≢ panic
    → ((a : A) → Returns (f a))
    → (resume x f os).0 ≢ panic
resume-Returns (ok a, t) f os h k = k a os t
resume-Returns (err e, t) f os h k = λ same. absurd (cc)
resume-Returns (panic, t) f os h k = absurd (h refl)

pub bind-Returns :
    {A B : Type 0} (m : M A) (f : A → M B)
    → Returns m
    → ((a : A) → Returns (f a))
    → Returns (m >>= f)
bind-Returns m f h k os t = resume-Returns (m os t) f os (h os t) k

pub deferred-Returns :
    {A : Type 0} (d : M (Unit {0})) (m : M A) → Returns m → Returns (deferred d m)
deferred-Returns d m h os t = h os t
