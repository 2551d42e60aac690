-- ===== src/Winapi/Resources/Bracket.antt =====
-- Code that leaves the resources that the process holds as they were.
use winsvc.Prelude.{◌≡◌, ◌∙◌, List, ◌∷◌}
use winsvc.Winapi.System.{Os, Trace, Outcome, ok, err, panic, M, resume, deferred, ◌>>=◌}
use winsvc.Winapi.Observed.{bind-Keeps}
use winsvc.Winapi.Resources.{Resource, live}

-- However it ends, it holds what it held before.
abbrev pub KeepsLive : {A : Type 0} → M A → Type 0
KeepsLive m = (os : Os) (t : Trace) → live (m os t).1 ≡ live t

pub bind-KeepsLive :
    {A B : Type 0} (m : M A) (f : A → M B)
    → KeepsLive m
    → ((a : A) → KeepsLive (f a))
    → KeepsLive (m >>= f)
bind-KeepsLive m f h k = bind-Keeps live m f h k

-- An outcome that holds one resource more, if it is a success.
abbrev pub Acquired : {A : Type 0} → (A → Resource) → List Resource → Outcome A × Trace → Type 0
Acquired of held (ok a, t) = live t ≡ of a ∷ held
Acquired of held (err e, t) = live t ≡ held
Acquired of held (panic, t) = live t ≡ held

abbrev pub Acquires : {A : Type 0} → (A → Resource) → M A → Type 0
Acquires of m = (os : Os) (t : Trace) → Acquired of (live t) (m os t)

abbrev pub Releases : {A : Type 0} → (A → Resource) → (A → M (Unit {0})) → Type 0
Releases {A} of release =
    (a : A) (os : Os) (t : Trace) (held : List Resource)
    → live t ≡ of a ∷ held
    → live (release a os t).1 ≡ held

module _ {A B : Type 0} (of : A → Resource) (acquire : M A) (release : A → M (Unit {0}))
    (body : A → M B) (acquires : Acquires of acquire) (releases : Releases of release)
    (keeps : (a : A) → KeepsLive (body a)) where
  bracket_resume :
      (x : Outcome A × Trace) (os : Os) (held : List Resource)
      → Acquired of held x
      → live (resume x (λ a. deferred (release a) (body a)) os).1 ≡ held
  bracket_resume (ok a, t) os held h = releases a os (body a os t).1 held (keeps a os t ∙ h)
  bracket_resume (err e, t) os held h = h
  bracket_resume (panic, t) os held h = h

  -- `a, err := acquire(); if err != nil { return err }; defer release(a); body(a)`
  pub bracket-KeepsLive : KeepsLive (acquire >>= λ a. deferred (release a) (body a))
  bracket-KeepsLive os t = bracket_resume (acquire os t) os (live t) (acquires os t)
