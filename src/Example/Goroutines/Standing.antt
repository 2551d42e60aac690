-- ===== src/Example/Goroutines/Standing.antt =====
-- What Execute and its goroutines have told run, by the place where Execute stands.
use winsvc.Prelude.{
  ◌≡◌, ◌≢◌, ◌⊎◌, inl, inr, refl, ap, List, [], ◌∷◌, ◌++◌, Option, none, some, All, arith,
}
use winsvc.Svc.Types.{Status, ExitCode, bare_status, start_pending, running, paused, stop_pending}
use winsvc.Svc.Handler.Alone.{latest}
use winsvc.Example.Handler.{accepting}
use winsvc.Example.Goroutines.{
  Place, starting, announcing, selecting, echoing, echoing_again, pausing, continuing, leaving,
  ending, ended, crashed, Worker, offering, Execution, says, no_error,
}

-- Never Stopped, which is for run to say.
abbrev pub IsActive : Status → Type 0
IsActive st =
    (st.state ≡ start_pending)
    ⊎ (st.state ≡ running)
    ⊎ (st.state ≡ paused)
    ⊎ (st.state ≡ stop_pending)

abbrev pub IsPending : Status → Type 0
IsPending st = st.state ≡ stop_pending

-- The first two statuses are there.
abbrev pub IsOpened : List Status → Type 0
IsOpened told =
    (later : List Status) × (told ≡ later ++ accepting running ∷ bare_status start_pending ∷ [])

IsOpened-more : (st : Status) (told : List Status) → IsOpened told → IsOpened (st ∷ told)
IsOpened-more st told (later, e) = (st ∷ later, ap (λ l. st ∷ l) e)

pub latest-IsActive :
    (told : List Status) → IsOpened told → All IsActive told → IsActive (latest told)
latest-IsActive [] ([], e) all = ground arith
latest-IsActive [] (x ∷ later, e) all = ground arith
latest-IsActive (st ∷ told) o (a, all) = a

-- What was told where Execute stands there.
abbrev pub Stands : Place → List Worker → List Status → Type 0
Stands starting ws told = (told ≡ []) × (ws ≡ [])
Stands announcing ws told = (told ≡ bare_status start_pending ∷ []) × (ws ≡ [])
Stands (echoing st) ws told = IsOpened told × IsActive st
Stands (echoing_again st) ws told = IsOpened told × IsActive st
Stands (ending st) ws told = IsOpened told × IsPending st
Stands ended ws told = IsOpened told × IsPending (latest told)
Stands _ ws told = IsOpened told

abbrev pub WorkerIsPending : Worker → Type 0
WorkerIsPending (offering st) = IsPending st
WorkerIsPending _ = Unit

abbrev pub IsAfter : Place → Type 0
IsAfter ended = Unit
IsAfter crashed = Unit
IsAfter _ = ⊥

-- Behind a return.
abbrev pub Answered : Option ExitCode → Place → List Status → Type 0
Answered none place told = Unit
Answered (some ec) place told = IsAfter place × (ec ≡ no_error)

-- What is said next is fit to be, and fits where Execute stands then.
abbrev pub Fits : List Status → Option (Status × Execution) → Type 0
Fits told none = Unit
Fits told (some (st, u)) = Stands u.place u.workers (st ∷ told) × IsActive st

pub says-Fits :
    (place : Place) (t : Execution) (told : List Status)
    → Stands place t.workers told
    → Fits told (says place t)
says-Fits starting t told (e, n) = ((ap (λ l. bare_status start_pending ∷ l) e, n), inl refl)
says-Fits announcing t told (e, n) = (([], ap (λ l. accepting running ∷ l) e), inr (inl refl))
says-Fits (echoing st) t told (o, a) = ((IsOpened-more st told o, a), a)
says-Fits (echoing_again st) t told (o, a) = (IsOpened-more st told o, a)
says-Fits pausing t told o = (IsOpened-more (accepting paused) told o, inr (inr (inl refl)))
says-Fits continuing t told o = (IsOpened-more (accepting running) told o, inr (inl refl))
says-Fits (ending st) t told (o, p) = ((IsOpened-more st told o, p), inr (inr (inr p)))
says-Fits selecting t told o = tt
says-Fits leaving t told o = tt
says-Fits ended t told o = tt
says-Fits crashed t told o = tt

-- Behind the first two statuses, which no goroutine precedes.
pub Stands-IsOpened :
    (place : Place) (ws : List Worker) (told : List Status)
    → ws ≢ []
    → Stands place ws told
    → IsOpened told
Stands-IsOpened starting ws told k (e, n) = absurd (k n)
Stands-IsOpened announcing ws told k (e, n) = absurd (k n)
Stands-IsOpened (echoing st) ws told k (o, a) = o
Stands-IsOpened (echoing_again st) ws told k (o, a) = o
Stands-IsOpened (ending st) ws told k (o, p) = o
Stands-IsOpened ended ws told k (o, p) = o
Stands-IsOpened pausing ws told k o = o
Stands-IsOpened continuing ws told k o = o
Stands-IsOpened selecting ws told k o = o
Stands-IsOpened leaving ws told k o = o
Stands-IsOpened crashed ws told k o = o

-- A goroutine goes on, and another one changes.
pub Stands-workers :
    (place : Place) (ws ws' : List Worker) (told : List Status)
    → ws ≢ []
    → Stands place ws told
    → Stands place ws' told
Stands-workers starting ws ws' told k (e, n) = absurd (k n)
Stands-workers announcing ws ws' told k (e, n) = absurd (k n)
Stands-workers (echoing st) ws ws' told k v = v
Stands-workers (echoing_again st) ws ws' told k v = v
Stands-workers (ending st) ws ws' told k v = v
Stands-workers ended ws ws' told k v = v
Stands-workers pausing ws ws' told k v = v
Stands-workers continuing ws ws' told k v = v
Stands-workers selecting ws ws' told k v = v
Stands-workers leaving ws ws' told k v = v
Stands-workers crashed ws ws' told k v = v

-- A goroutine has told its status.
pub Stands-more :
    (place : Place) (ws ws' : List Worker) (st : Status) (told : List Status)
    → ws ≢ []
    → IsPending st
    → Stands place ws told
    → Stands place ws' (st ∷ told)
Stands-more starting ws ws' st told k p (e, n) = absurd (k n)
Stands-more announcing ws ws' st told k p (e, n) = absurd (k n)
Stands-more (echoing x) ws ws' st told k p (o, a) = (IsOpened-more st told o, a)
Stands-more (echoing_again x) ws ws' st told k p (o, a) = (IsOpened-more st told o, a)
Stands-more (ending x) ws ws' st told k p (o, q) = (IsOpened-more st told o, q)
Stands-more ended ws ws' st told k p (o, q) = (IsOpened-more st told o, p)
Stands-more pausing ws ws' st told k p o = IsOpened-more st told o
Stands-more continuing ws ws' st told k p o = IsOpened-more st told o
Stands-more selecting ws ws' st told k p o = IsOpened-more st told o
Stands-more leaving ws ws' st told k p o = IsOpened-more st told o
Stands-more crashed ws ws' st told k p o = IsOpened-more st told o
