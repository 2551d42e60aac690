-- ===== src/Example/Goroutines/Frames.antt =====
-- What the acts of Execute leave as it was.
use winsvc.Prelude.{
  ◌≡◌, ◌≢◌, refl, List, [], ◌∷◌, ◌++◌, some, All, Bool, true, false, if◌then◌else◌, arith,
}
use winsvc.Svc.Types.{Status, ChangeRequest, stop, shutdown}
use winsvc.Example.Goroutines.{
  Place, starting, announcing, selecting, echoing, echoing_again, pausing, continuing, leaving,
  ending, ended, crashed, Worker, Execution, says, on_request,
}

pub no_one : (w : Worker) (xs ys : List Worker) → [] ≢ xs ++ w ∷ ys
no_one w [] ys h = ground arith
no_one w (x ∷ xs) ys h = ground arith

-- A send of Execute leaves the goroutines and what they share alone.
abbrev pub Framed : Execution → Execution → Type 0
Framed t u =
    (u.workers ≡ t.workers) × (u.is_shutdown ≡ t.is_shutdown) × (u.checkpoint ≡ t.checkpoint)

pub says-Framed :
    (place : Place) (t u : Execution) (st : Status) → says place t ≡ some (st, u) → Framed t u
says-Framed starting t u st h = ground arith
says-Framed announcing t u st h = ground arith
says-Framed (echoing x) t u st h = ground arith
says-Framed (echoing_again x) t u st h = ground arith
says-Framed pausing t u st h = ground arith
says-Framed continuing t u st h = ground arith
says-Framed (ending x) t u st h = ground arith
says-Framed selecting t u st h = ground arith
says-Framed leaving t u st h = ground arith
says-Framed ended t u st h = ground arith
says-Framed crashed t u st h = ground arith

-- A goroutine between the others: what holds of it, of another one in its place, and of the rest.
pub All-middle :
    (P : Worker → Type 0) (xs ys : List Worker) (w : Worker) → All P (xs ++ w ∷ ys) → P w
All-middle P [] ys w (h, all) = h
All-middle P (x ∷ xs) ys w (h, all) = All-middle P xs ys w all

pub All-swap :
    (P : Worker → Type 0) (xs ys : List Worker) (w w' : Worker)
    → P w'
    → All P (xs ++ w ∷ ys)
    → All P (xs ++ w' ∷ ys)
All-swap P [] ys w w' k (h, all) = (k, all)
All-swap P (x ∷ xs) ys w w' k (h, all) = (h, All-swap P xs ys w w' k all)

pub All-remove :
    (P : Worker → Type 0) (xs ys : List Worker) (w : Worker)
    → All P (xs ++ w ∷ ys)
    → All P (xs ++ ys)
All-remove P [] ys w (h, all) = all
All-remove P (x ∷ xs) ys w (h, all) = (h, All-remove P xs ys w all)

-- What holds of both branches.
pub on_both {ℓ κ} :
    {A : Type ℓ} (P : A → Type κ) (b : Bool) {x y : A}
    → (b ≡ true → P x)
    → (b ≡ false → P y)
    → P (if b then x else y)
on_both P true h k = h refl
on_both P false h k = k refl

pub on_request-stop :
    (c : ChangeRequest) (t : Execution)
    → c.cmd ≡ stop
    → on_request c t ≡ record t { place = leaving }
unfolding on_request
on_request-stop c t h = rw h refl

pub on_request-shutdown :
    (c : ChangeRequest) (t : Execution)
    → c.cmd ≡ shutdown
    → on_request c t ≡ record t { place = leaving }
unfolding on_request
on_request-shutdown c t h = rw h refl
