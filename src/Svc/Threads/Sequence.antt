-- ===== src/Svc/Threads/Sequence.antt =====
-- The threads of a service do what the function of run says, for some order of offers.
use winsvc.Prelude.{ℕ, ◌≡◌, refl, sym, ap, ◌∙◌, some, none, List, [], ◌∷◌, ◌++◌, arith}
use winsvc.Unicode.{GoString}
use winsvc.Winapi.Types.{StringPtr}
use winsvc.Winapi.System.{Os, Trace, Outcome, ok, err, panic, resume, ignore, M}
use winsvc.Svc.Event
use winsvc.Svc.Loop.{
  Offer, Round, start_round, Turn, go_on, break_loop, next_round, select, run_loop,
}
use winsvc.Svc.Run.{finished, finish, arguments, serve}
use winsvc.Svc.Service.{update_status}
use winsvc.Svc.Types.{ExitCode, Service, bare_status, stopped}
use winsvc.Svc.Threads.{
  MainPlace, entered, RunPlace, blocked, looping, broken, stopping, ended, crashed, State,
  first_state, after_turn, Step, register, refuse, release, begin, crash, call, set, leave, stop,
  with_handle, Reach, here, next,
}
use winsvc.Svc.Threads
use winsvc.Svc.Threads.Order.{IsOrdered, Reach-IsOrdered}

next_round-return :
    (s : Service) (os : Os) (x : Outcome Turn × Trace)
    → resume x (next_round (run_loop s [])) os ≡ x
unfolding run_loop
next_round-return s os (ok (go_on p), t) = refl
next_round-return s os (ok (break_loop ec p), t) = refl
next_round-return s os (err e, t) = refl
next_round-return s os (panic, t) = refl

module _ (os : Os) (q : Round) (t' t'' : Trace) (turn : Turn) where
  next_round-then :
      (rest rest' : Round → M Turn) (x : Outcome Turn × Trace)
      → ((p : Round) (t : Trace) → rest p os t ≡ (ok (go_on q), t') → rest' p os t ≡ (ok turn, t''))
      → resume x (next_round rest) os ≡ (ok (go_on q), t')
      → resume x (next_round rest') os ≡ (ok turn, t'')
  next_round-then rest rest' (ok (go_on p), t) f h = f p t h
  next_round-then rest rest' (ok (break_loop ec p), t) f h = cc
  next_round-then rest rest' (err e, t) f h = cc
  next_round-then rest rest' (panic, t) f h = cc

  pub run_loop-snoc :
      (s : Service) (offers : List Offer) (o : Offer)
      → select s o q os t' ≡ (ok turn, t'')
      → (p : Round) (t : Trace) → run_loop s offers p os t ≡ (ok (go_on q), t')
      → run_loop s (offers ++ o ∷ []) p os t ≡ (ok turn, t'')
  unfolding run_loop
  run_loop-snoc s [] o k p t h =
      next_round-return s os (select s o p os t)
      ∙ (let same_round : p ≡ q = cc in
          let same_trace : t ≡ t' = cc in rw (same_round, same_trace) k)
  run_loop-snoc s (x ∷ offers) o k p t h =
      next_round-then (run_loop s offers) (run_loop s (offers ++ o ∷ [])) (select s x p os t)
        (run_loop-snoc s offers o k) h

module _ (s : Service) (argc : ℕ) (argv : List StringPtr) (os : Os) (t₀ : Trace) where
  -- What the trace of the goroutine is at each of its places: that of the functions of run over
  -- some offers.
  abbrev pub Follows : (handle : ℕ) → RunPlace → Trace → Type 0
  Follows h blocked t = t ≡ t₀
  Follows h (looping args p) t =
      (arguments argc argv ≡ some args)
      × ((offers : List Offer) × (run_loop (with_handle s h) offers start_round os t₀
            ≡ (ok (go_on p), t)))
  Follows h (broken args ec p) t =
      (arguments argc argv ≡ some args)
      × ((offers : List Offer) × (run_loop (with_handle s h) offers start_round os t₀
            ≡ (ok (break_loop ec p), t)))
  Follows h (stopping args ec p) t =
      (arguments argc argv ≡ some args)
      × ((offers : List Offer) × (before : Trace) × (run_loop (with_handle s h) offers start_round
              os t₀
            ≡ (ok (break_loop ec p), before))
          × (t ≡ (ignore (update_status (with_handle s h) (bare_status stopped) ec) os before).1))
  Follows h (ended args ec p) t =
      (arguments argc argv ≡ some args)
      × ((offers : List Offer) × (serve (with_handle s h) offers (some args) os t₀
            ≡ (ok (finished args ec p), t)))
  Follows h crashed t = (arguments argc argv ≡ none) × (t ≡ t₀)

  abbrev pub IsSequential : State → Type 0
  IsSequential t = Follows t.handle t.run t.trace

  after_turn-Follows :
      (h : ℕ) (args : List GoString) (turn : Turn) (offers : List Offer) (t : Trace)
      → arguments argc argv ≡ some args
      → run_loop (with_handle s h) offers start_round os t₀ ≡ (ok turn, t)
      → Follows h (after_turn args turn) t
  after_turn-Follows h args (go_on p) offers t a r = (a, (offers, r))
  after_turn-Follows h args (break_loop ec p) offers t a r = (a, (offers, r))

  serve-Follows :
      (h : ℕ) (args : List GoString) (o : Offer) (p : Round) (turn : Turn) (t t' : Trace)
      → Follows h (looping args p) t
      → select (with_handle s h) o p os t ≡ (ok turn, t')
      → Follows h (after_turn args turn) t'
  serve-Follows h args o p turn t t' (a, (offers, r)) k =
      after_turn-Follows h args turn (offers ++ o ∷ []) t' a
        (run_loop-snoc os p t t' turn (with_handle s h) offers o k start_round t₀ r)

  stop-Follows :
      (h : ℕ) (args : List GoString) (ec : ExitCode) (p : Round) (t : Trace)
      → Follows h (broken args ec p) t
      → Follows h
          (stopping args ec p)
          (ignore (update_status (with_handle s h) (bare_status stopped) ec) os t).1
  stop-Follows h args ec p t (a, (offers, r)) = (a, (offers, t, r, refl))

  finish_lem :
      (h : ℕ) (args : List GoString) (ec : ExitCode) (p : Round) (t : Trace)
      → finish (with_handle s h) args (break_loop ec p) os t ≡ (
        ok (finished args ec p),
        (ignore
            (Event.set s.c_waits)
            os
            (ignore (update_status (with_handle s h) (bare_status stopped) ec) os t).1).1,
      )
  unfolding finish update_status
  finish_lem h args ec p t = ground arith

  set-Follows :
      (h : ℕ) (args : List GoString) (ec : ExitCode) (p : Round) (t : Trace)
      → Follows h (stopping args ec p) t
      → Follows h (ended args ec p) (ignore (Event.set s.c_waits) os t).1
  unfolding serve
  set-Follows h args ec p t (a, (offers, before, r, e)) = (
    a,
    (
      offers,
      ap (λ x. resume x (finish (with_handle s h) args) os) r
          ∙ finish_lem h args ec p before
          ∙ ap (λ x. (ok (finished args ec p), (ignore (Event.set s.c_waits) os x).1)) (sym e),
    ),
  )

  start-Follows :
      (h : ℕ) (args : List GoString) (t : Trace)
      → arguments argc argv ≡ some args
      → Follows h blocked t
      → Follows h (looping args start_round) t
  unfolding run_loop
  start-Follows h args t a e = (a, ([], ap (λ x. (ok (go_on start_round), x)) (sym e)))

  Step-IsSequential :
      {t u : State} → Step s argc argv os t u → IsOrdered t → IsSequential t → IsSequential u
  Step-IsSequential {t} (register h k e w) o f =
      let b : t.run ≡ blocked = ground arith in rw (w, b) (rw b at f)
  Step-IsSequential (refuse e w) o f = rw w f
  Step-IsSequential (release e w) o f = rw w f
  Step-IsSequential {t} (begin args e g a w) o f =
      rw w (start-Follows t.handle args t.trace a (rw e at f))
  Step-IsSequential {t} (crash e g a w) o f = rw w (a, rw e at f)
  Step-IsSequential (call e k w) o f = rw w f
  Step-IsSequential {t} (Threads.serve args off p turn t' e k sel w) o f =
      rw w (serve-Follows t.handle args off p turn t.trace t' (rw e at f) sel)
  Step-IsSequential {t} (stop args ec p e w) o f =
      rw w (stop-Follows t.handle args ec p t.trace (rw e at f))
  Step-IsSequential {t} (set args ec p e w) o f =
      rw w (set-Follows t.handle args ec p t.trace (rw e at f))
  Step-IsSequential (leave e k w) o f = rw w f

  Reach-IsSequential :
      {t u : State} → Reach s argc argv os t u → IsOrdered t → IsSequential t → IsSequential u
  Reach-IsSequential here o f = f
  Reach-IsSequential (next r st) o f =
      Step-IsSequential st (Reach-IsOrdered s argc argv os r o) (Reach-IsSequential r o f)

-- However the threads of a service interleave, the goroutine run does what the function of run
-- behind its wait does for some list of offers: its place and its trace are those of the loop over
-- these offers, and where it has ended, those of the loop with what follows it, with the arguments
-- of the service's main function and the status handle that it stored.
pub threads-IsSequential :
    (s : Service) (argc : ℕ) (argv : List StringPtr) (os : Os) (t : Trace) (u : State)
    → Reach s argc argv os (first_state t) u
    → IsSequential s argc argv os t u
threads-IsSequential s argc argv os t u r =
    Reach-IsSequential s argc argv os t r (refl, refl, refl) refl
