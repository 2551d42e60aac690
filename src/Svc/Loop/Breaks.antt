-- ===== src/Svc/Loop/Breaks.antt =====
-- When the loop of run ends, and with which exit code.
use winsvc.Prelude.{◌≡◌, ◌∙◌, ap, ◌++◌, ◌≢◌, ◌⊎◌, inl, refl, true, List, [], ◌∷◌, arith}
use mathlib.Core.List.{Memᴰ}
use winsvc.Winapi.System.{Error, Os, Trace, Outcome, ok, err, panic, M, resume}
use winsvc.Svc.Types.{CtlEvent, ExitCode, Service, Status}
use winsvc.Svc.Service.{update_status}
use winsvc.Svc.Loop.{
  Offer, control, deliver, change, exit, Round, Turn, go_on, break_loop, next_round, start,
  error_number, start_round, select, run_loop,
}
use winsvc.Svc.Loop.Rule.{Ends, run_loop-Ends, Ends-next_round, Ends-mono, All-of_mem}

abbrev pub Anywhere : Round → Trace → Type 0
Anywhere p t = Unit

abbrev CleanVars : Round → Trace → Type 0
CleanVars p t = (p.vars.ec.errno ≡ 0) × (p.vars.ec.is_svc_specific ≡ true)

-- The handler gave the exit code, or it stands for a failure in this package.
abbrev pub IsCause : List Offer → ExitCode → Type 0
IsCause offers ec = Memᴰ (exit ec) offers ⊎ ((ec.errno ≢ 0) × (ec.is_svc_specific ≡ true))

module _ (s : Service) (os : Os) (offers : List Offer) where
  select-IsCause :
      (o : Offer)
      → Memᴰ o offers
      → (p : Round) (t : Trace) → CleanVars p t
      → Ends CleanVars (λ ec p t. IsCause offers ec) (select s o p os t)
  unfolding select update_status
  select-IsCause (control r) m p t v = ground arith
  select-IsCause deliver m p t v = ground arith
  select-IsCause (change c) m p t v = ground arith
  select-IsCause (exit e) m p t v = inl m

append-step :
    (os : Os) (q : Round) (t' : Trace) (goal : Outcome Turn × Trace) (rest rest' : Round → M Turn)
    → ((p : Round) (t : Trace) → rest p os t ≡ (ok (go_on q), t') → rest' p os t ≡ goal)
    → (x : Outcome Turn × Trace) → resume x (next_round rest) os ≡ (ok (go_on q), t')
    → resume x (next_round rest') os ≡ goal
append-step os q t' goal rest rest' ih (ok (go_on p), t) h = ih p t h
append-step os q t' goal rest rest' ih (ok (break_loop ec p), t) h = absurd (ground (arith, h))
append-step os q t' goal rest rest' ih (err e, t) h = absurd (ground (arith, h))
append-step os q t' goal rest rest' ih (panic, t) h = absurd (ground (arith, h))

run_loop-append :
    (s : Service) (os : Os) (later : List Offer) (q : Round) (t' : Trace) (offers : List Offer)
    (p : Round) (t : Trace)
    → run_loop s offers p os t ≡ (ok (go_on q), t')
    → run_loop s (offers ++ later) p os t ≡ run_loop s later q os t'
unfolding run_loop
run_loop-append s os later q t' [] p t h =
    let same_round : p ≡ q = cc in let same_trace : t ≡ t' = cc in rw (same_round, same_trace) refl
run_loop-append s os later q t' (o ∷ offers) p t h =
    append-step os q t' (run_loop s later q os t') (run_loop s offers)
      (run_loop s (offers ++ later)) (run_loop-append s os later q t' offers) (select s o p os t) h

-- How the next offer ends the loop, whatever comes later: a control with an errno by that errno, a
-- report that fails by its error, as service specific codes, and the handler's exit code by itself.
module _ (s : Service) (os : Os) (t₀ : Trace) (offers later : List Offer) (p : Round)
    (t : Trace) where
  abbrev pub BreaksWith : Offer → ExitCode → Trace → Type 0
  BreaksWith o ec t' =
      run_loop s (offers ++ o ∷ later) start_round os t₀ ≡ (ok (break_loop ec p), t')

  abbrev pub Breaks : Type 0
  Breaks =
      ((e : CtlEvent)
        → p.vars.inch ≡ true
        → e.errno ≢ 0
        → BreaksWith (control e) (record { is_svc_specific = true; errno = e.errno }) t)
      × ((st : Status) (e : Error) (t' : Trace)
          → update_status s st start.ec os t ≡ (err e, t')
          → BreaksWith (change st) (record { is_svc_specific = true; errno = error_number e }) t')
      × ((ec : ExitCode) → BreaksWith (exit ec) ec t)

  break-now :
      (o : Offer) (ec : ExitCode) (t' : Trace)
      → run_loop s offers start_round os t₀ ≡ (ok (go_on p), t)
      → select s o p os t ≡ (ok (break_loop ec p), t')
      → BreaksWith o ec t'
  unfolding run_loop
  break-now o ec t' run taken =
      run_loop-append s os (o ∷ later) p t offers start_round t₀ run
      ∙ ap (λ x. resume x (next_round (run_loop s later)) os) taken

  select-Breaks :
      run_loop s offers start_round os t₀ ≡ (ok (go_on p), t) → p.vars.ec ≡ start.ec → Breaks
  unfolding select
  select-Breaks run clean = (
    (λ e i n. break-now (control e) _ t run (ground (arith, clean, i, n))),
    (λ st e t' failed. break-now (change st) _ t' run (rw (clean, failed) refl)),
    (λ ec. break-now (exit ec) ec t run refl),
  )

CleanVars-start : (p : Round) (t : Trace) → CleanVars p t → p.vars.ec ≡ start.ec
CleanVars-start p t (e, k) = ground (arith, e, k)

-- The loop breaks off with an exit code that the handler offered, or with a service specific code
-- other than 0; and no failure is passed over. Wherever the loop goes on, and whatever comes later,
-- it breaks at the next offer where that is a control with an errno that it is open for, with this
-- errno; a status whose report fails, with the number of the error; or the handler's exit code,
-- with that code.
pub run_loop-IsCause :
    (s : Service) (offers : List Offer) (os : Os) (t : Trace)
    → Ends Anywhere (λ ec p t. IsCause offers ec) (run_loop s offers start_round os t)
      × ((p : Round) (t' : Trace) (later : List Offer)
          → run_loop s offers start_round os t ≡ (ok (go_on p), t')
          → Breaks s os t offers later p t')
run_loop-IsCause s offers os t =
    let clean =
      run_loop-Ends CleanVars (λ ec p t. IsCause offers ec) s os offers
        (All-of_mem _ offers (select-IsCause s os offers)) start_round t (refl, refl) in
    (
      Ends-mono CleanVars _ _ _ (run_loop s offers start_round os t) (λ p t v. tt) (λ ec p t v. v)
          clean,
      (λ p t' later h.
          select-Breaks s os t offers later p t' h (CleanVars-start p t' (rw h at clean))),
    )

abbrev pub Nowhere : Round → Trace → Type 0
Nowhere p t = ⊥

abbrev pub Broken : ExitCode → Round → Trace → Type 0
Broken ec p t = Unit

pub select-Ends :
    (s : Service) (o : Offer) (p : Round) (os : Os) (t : Trace)
    → Ends Anywhere Broken (select s o p os t)
unfolding select update_status
select-Ends s (control r) p os t = ground arith
select-Ends s deliver p os t = ground arith
select-Ends s (change c) p os t = ground arith
select-Ends s (exit e) p os t = tt

pub select_exit :
    (s : Service) (ec : ExitCode) (o : Offer) (p : Round) (os : Os) (t : Trace)
    → exit ec ≡ o
    → Ends Nowhere Broken (select s o p os t)
unfolding select
select_exit s ec (exit e) p os t same = tt
select_exit s ec (control r) p os t same = absurd (cc)
select_exit s ec deliver p os t same = absurd (cc)
select_exit s ec (change c) p os t same = absurd (cc)

-- Once the handler offers its exit code, the loop ends with a break, whatever was offered before
-- and whatever Windows answers: no state of the loop refuses it.
pub run_loop_breaks :
    (s : Service) (ec : ExitCode) (offers : List Offer) (p : Round) (os : Os) (t : Trace)
    → Memᴰ (exit ec) offers
    → Ends Nowhere Broken (run_loop s offers p os t)
unfolding run_loop
run_loop_breaks s ec [] p os t m = elim m [ ]
run_loop_breaks s ec (o ∷ offers) p os t (Memᴰ.head same) =
    Ends-next_round Nowhere Nowhere Broken os (run_loop s offers) (λ p t v. absurd v)
      (select s o p os t) (select_exit s ec o p os t same)
run_loop_breaks s ec (o ∷ offers) p os t (Memᴰ.tail m) =
    Ends-next_round Anywhere Nowhere Broken os (run_loop s offers)
      (λ p' t' v. run_loop_breaks s ec offers p' os t' m) (select s o p os t)
      (select-Ends s o p os t)
