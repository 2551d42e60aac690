-- ===== src/Svc/Handler/Sequence.antt =====
-- run with a handler does what its function says, for the offers that the handler makes.
use winsvc.Prelude.{
  arith, if◌then◌else◌, ◌≡◌, refl, List, [], ◌∷◌, ◌++◌, Option, none, some, map, ◌≢◌,
}
use winsvc.Winapi.System.{Os, Trace, ok, Call, calls}
use winsvc.Svc.Types.{ChangeRequest, ExitCode, Service, Status}
use winsvc.Svc.Service.{update_status}
use winsvc.Svc.Loop.{
  Happening, received, sent, reported, Offer, control, deliver, change, exit, Round, start_round,
  Turn, go_on, break_loop, select, run_loop,
}
use winsvc.Svc.Loop
use winsvc.Svc.Loop.Calls.{report}
use winsvc.Svc.Handler.Alone.{latest, Runs, start, send, receive, work, leave}
use winsvc.Svc.Threads.Sequence.{run_loop-snoc}
use winsvc.Svc.Handler.{
  Act, Phase, executing, exiting, over, State, first_state, request_of, Takes, Step, controlled,
  delivered, changed, exited, worked, returned, Reach, here, next,
}

-- The statuses that are offered, the latest first, in front of those of the argument.
abbrev pub spoken : List Offer → List Status → List Status
spoken [] told = told
spoken (control e ∷ offers) told = spoken offers told
spoken (deliver ∷ offers) told = spoken offers told
spoken (change st ∷ offers) told = spoken offers (st ∷ told)
spoken (exit ec ∷ offers) told = spoken offers told

abbrev said : Offer → List Status → List Status
said o told = spoken (o ∷ []) told

spoken-append :
    (offers : List Offer) (o : Offer) (told : List Status)
    → spoken (offers ++ o ∷ []) told ≡ said o (spoken offers told)
spoken-append [] o told = refl
spoken-append (control e ∷ offers) o told = spoken-append offers o told
spoken-append (deliver ∷ offers) o told = spoken-append offers o told
spoken-append (change st ∷ offers) o told = spoken-append offers o (st ∷ told)
spoken-append (exit ec ∷ offers) o told = spoken-append offers o told

-- The requests that the loop handed on, the latest first.
abbrev pub asked : List Happening → List ChangeRequest
asked [] = []
asked (received c ∷ log) = asked log
asked (sent c ∷ log) = c ∷ asked log
asked (reported st ∷ log) = asked log

abbrev pub log_of : Turn → List Happening
log_of (go_on p) = p.log
log_of (break_loop ec p) = p.log

abbrev asked_behind : Offer → Round → List ChangeRequest
asked_behind deliver p = if p.vars.outch then request_of p ∷ asked p.log else asked p.log
asked_behind o p = asked p.log

select-asked :
    (s : Service) (os : Os) (o : Offer) (p : Round) (t t' : Trace) (turn : Turn)
    → select s o p os t ≡ (ok turn, t')
    → asked (log_of turn) ≡ asked_behind o p
unfolding select update_status
select-asked s os (control e) p t t' turn h = ground arith
select-asked s os deliver p t t' turn h = ground arith
select-asked s os (change st) p t t' turn h = ground arith
select-asked s os (exit ec) p t t' turn h = ground arith

-- The exit code that Execute returned.
abbrev pub answer : Phase → Option ExitCode
answer executing = none
answer (exiting ec) = some ec
answer (over ec) = some ec

-- Where the loop goes on, its status is the one that holds, and its exit code that of the start.
abbrev pub IsCurrent : Turn → List Status → Type 0
IsCurrent (go_on p) told = (p.vars.status ≡ latest told) × (p.vars.ec ≡ Loop.start.ec)
IsCurrent (break_loop ec p) told = Unit

select-IsCurrent :
    (s : Service) (os : Os) (o : Offer) (p : Round) (t t' : Trace) (turn : Turn)
    (told : List Status)
    → IsCurrent (go_on p) told
    → select s o p os t ≡ (ok turn, t')
    → IsCurrent turn (said o told)
unfolding select update_status
select-IsCurrent s os (control e) p t t' turn told k h = ground arith
select-IsCurrent s os deliver p t t' turn told k h = ground arith
select-IsCurrent s os (change st) p t t' turn told k h = ground arith
select-IsCurrent s os (exit ec) p t t' turn told k h = ground arith

-- What Windows was told behind its calls before: a report of each status.
abbrev pub IsReported : Service → List Status → (before now : List Call) → Type 0
IsReported s told before now = s.h ≢ 0 → now ≡ map (report s) told ++ before

select-IsReported :
    (s : Service) (os : Os) (o : Offer) (p : Round) (t t' : Trace) (turn : Turn)
    (told : List Status) (before : List Call)
    → IsCurrent (go_on p) told
    → select s o p os t ≡ (ok turn, t')
    → IsReported s told before (calls t)
    → IsReported s (said o told) before (calls t')
unfolding select update_status
select-IsReported s os (control e) p t t' turn told before k h r n = ground (arith, r n)
select-IsReported s os deliver p t t' turn told before k h r n = ground (arith, r n)
select-IsReported s os (change st) p t t' turn told before k h r n = ground (arith, r n)
select-IsReported s os (exit ec) p t t' turn told before k h r n = ground (arith, r n)

module _ {S : Type 0} (May : S → Act S → Type 0) (h₀ : S) where
  module _ (s : Service) (os : Os) (t₀ : Trace) where
    -- The loop is that of run over some offers, and the handler has run by itself: it was given
    -- what the loop handed on, and has sent the statuses among the offers.
    abbrev pub IsSequential : State S → Type 0
    IsSequential u =
        (offers : List Offer) × (run_loop s offers start_round os t₀ ≡ (ok u.turn, u.trace))
        × IsCurrent u.turn (spoken offers [])
        × IsReported s (spoken offers []) (calls t₀) (calls u.trace)
        × Runs May h₀ (asked (log_of u.turn)) (spoken offers []) u.handler (answer u.phase)

    Takes-IsSequential :
        (t u : State S) (p : Round) (o : Offer) (h : S) (phase : Phase)
        → ((told : List Status)
            → p.vars.status ≡ latest told
            → Runs May h₀ (asked p.log) told t.handler (answer t.phase)
            → Runs May h₀ (asked_behind o p) (said o told) h (answer phase))
        → t.turn ≡ go_on p
        → Takes May s os t p o h phase u
        → IsSequential t
        → IsSequential u
    Takes-IsSequential t u p o h phase f l (ready, turn, t', taken, same)
          (offers, run, now, reports, runs) =
        rw same (
          offers ++ o ∷ [],
          run_loop-snoc os p t.trace t' turn s offers o taken start_round t₀ (rw l at run),
          rw (spoken-append offers o [])
              (select-IsCurrent s os o p t.trace t' turn (spoken offers []) (rw l at now) taken),
          rw (spoken-append offers o []) (
              select-IsReported s os o p t.trace t' turn (spoken offers []) (calls t₀) (rw l at now)
                taken reports),
          rw (spoken-append offers o [], select-asked s os o p t.trace t' turn taken)
              (f (spoken offers []) ((rw l at now).0) (rw l at runs)),
        )

    Step-IsSequential : {t u : State S} → Step May s os t u → IsSequential t → IsSequential u
    Step-IsSequential {t} {u} (controlled p e l k) v =
        Takes-IsSequential t u p (control e) t.handler t.phase (λ told k r. r) l k v
    Step-IsSequential {t} {u} (delivered p h l m x) v =
        Takes-IsSequential t u p deliver h t.phase
          (λ told k r. rw (x.0) (receive (request_of p) h k m r)) l x v
    Step-IsSequential {t} {u} (changed p st h l m k) v =
        Takes-IsSequential t u p (change st) h t.phase (λ told k r. send st h m r) l k v
    Step-IsSequential {t} {u} (exited p ec l e k) v =
        Takes-IsSequential t u p (exit ec) t.handler (over ec) (λ told k r. rw e at r) l k v
    Step-IsSequential {t} {u} (worked h m same) (offers, run, now, reports, runs) =
        rw same (offers, run, now, reports, work h m runs)
    Step-IsSequential {t} {u} (returned ec h e m same) (offers, run, now, reports, runs) =
        rw same (offers, run, now, reports, leave ec h m (rw e at runs))

    Reach-IsSequential : {t u : State S} → Reach May s os t u → IsSequential t → IsSequential u
    Reach-IsSequential here v = v
    Reach-IsSequential (next r st) v = Step-IsSequential st (Reach-IsSequential r v)

-- However run and a handler interleave, the loop is that of run over some list of offers, and the
-- handler has run by itself: it was given exactly the requests that the loop handed on, each with
-- the status that the handler had sent last, at first Stopped, and has sent exactly the statuses
-- among the offers, each in their order. With a status handle, all that Windows was asked meanwhile
-- is to take these statuses, in that order.
pub handler-IsSequential :
    {S : Type 0} (May : S → Act S → Type 0) (s : Service) (os : Os) (h : S) (t : Trace)
    (u : State S)
    → Reach May s os (first_state h t) u
    → IsSequential May h s os t u
unfolding run_loop
handler-IsSequential May s os h t u r =
    Reach-IsSequential May h s os t r ([], refl, (refl, refl), (λ n. refl), start)
