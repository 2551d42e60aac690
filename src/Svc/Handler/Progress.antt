-- ===== src/Svc/Handler/Progress.antt =====
-- run and its handler do not block each other.
use winsvc.Prelude.{◌≡◌, ◌⊎◌, inl, inr, refl, ap, ◌∙◌, not, Bool, true, false, arith}
use winsvc.Winapi.System.{Os, Trace, Outcome, ok, err, panic}
use winsvc.Svc.Types.{ChangeRequest, CtlEvent, ExitCode, Service, Status}
use winsvc.Svc.Service.{update_status}
use winsvc.Svc.Loop.{
  Offer, control, deliver, change, exit, Round, Turn, go_on, break_loop, select, is_ready,
}
use winsvc.Svc.Loop.Rule.{Ends}
use winsvc.Svc.Loop.Breaks.{Anywhere, Nowhere, Broken, select-Ends, select_exit}
use winsvc.Svc.Loop.Mailbox.{IsSound, Sound, select-Sound, start-IsSound}
use winsvc.Svc.Handler.{
  Act, sends, receives, works, returns, Phase, executing, exiting, over, State, first_state,
  request_of, Takes, Step, controlled, delivered, changed, exited, worked, returned, Reach, here,
  next,
}

abbrev pub IsThere : Phase → Type 0
IsThere executing = Unit
IsThere (exiting ec) = Unit
IsThere (over ec) = ⊥

-- Where the loop goes on, it is sound and the goroutine of Execute has not ended.
abbrev pub Alive : Turn → Phase → Type 0
Alive (go_on p) phase = IsSound p × IsThere phase
Alive (break_loop ec p) phase = Unit

Ends-Alive :
    (phase : Phase) (turn : Turn) (t : Trace)
    → IsThere phase
    → Ends Sound (λ ec p t. IsSound p) (ok turn, t)
    → Alive turn phase
Ends-Alive phase (go_on p) t h v = (v, h)
Ends-Alive phase (break_loop ec p) t h v = tt

Ends-Alive-over :
    (ec : ExitCode) (turn : Turn) (t : Trace)
    → Ends Nowhere Broken (ok turn, t)
    → Alive turn (over ec)
Ends-Alive-over ec (go_on p) t v = absurd v
Ends-Alive-over ec (break_loop e p) t v = tt

Alive-exiting :
    (turn : Turn) (phase : Phase) (ec : ExitCode) → Alive turn phase → Alive turn (exiting ec)
Alive-exiting (go_on p) phase ec (v, k) = (v, tt)
Alive-exiting (break_loop e p) phase ec v = tt

-- A select returns.
pub Ends-ok :
    (x : Outcome Turn × Trace)
    → Ends Anywhere Broken x
    → (turn : Turn) × ((t : Trace) × (x ≡ (ok turn, t)))
Ends-ok (ok turn, t) v = (turn, (t, refl))
Ends-ok (err e, t) v = absurd v
Ends-ok (panic, t) v = absurd v

-- What holds of the loop where it goes on.
abbrev pub Kept : (Round → Type 0) → Round → Trace → Type 0
Kept P p t = P p

abbrev pub Turned : (Round → Type 0) → Turn → Type 0
Turned P (go_on p) = P p
Turned P (break_loop ec p) = Unit

Ends-Turned :
    (P : Round → Type 0) (turn : Turn) (t : Trace)
    → Ends (Kept P) Broken (ok turn, t)
    → Turned P turn
Ends-Turned P (go_on p) t v = v
Ends-Turned P (break_loop ec p) t v = tt

select-change :
    (s : Service) (st : Status) (p : Round) (os : Os) (t : Trace)
    → Ends (Kept (λ q. q.vars.status ≡ st)) Broken (select s (change st) p os t)
unfolding select update_status
select-change s st p os t = ground arith

select-deliver :
    (s : Service) (p : Round) (os : Os) (t : Trace)
    → p.vars.outch ≡ true
    → Ends (Kept (λ q. q.vars.inch ≡ true)) Broken (select s deliver p os t)
unfolding select
select-deliver s p os t h = ground arith

select-control :
    (s : Service) (e : CtlEvent) (p : Round) (os : Os) (t : Trace)
    → p.vars.inch ≡ true
    → Ends (Kept (λ q. q.vars.cmd ≡ e.cmd)) Broken (select s (control e) p os t)
unfolding select
select-control s e p os t h = ground arith

module _ {S : Type 0} (May : S → Act S → Type 0) (s : Service) (os : Os) where
  Takes-Alive :
      (t u : State S) (p : Round) (o : Offer) (h : S)
      → Alive t.turn t.phase
      → t.turn ≡ go_on p
      → Takes May s os t p o h t.phase u
      → Alive u.turn u.phase
  Takes-Alive t u p o h alive looping (ready, turn, t', taken, same) =
      let (sound, there) = rw looping at alive in
      rw same (Ends-Alive t.phase turn t' there (rw taken at (select-Sound s os o p t.trace sound)))

  Step-Alive : {t u : State S} → Step May s os t u → Alive t.turn t.phase → Alive u.turn u.phase
  Step-Alive {t} {u} (controlled p e l k) v = Takes-Alive t u p (control e) t.handler v l k
  Step-Alive {t} {u} (delivered p h l m k) v = Takes-Alive t u p deliver h v l k
  Step-Alive {t} {u} (changed p st h l m k) v = Takes-Alive t u p (change st) h v l k
  Step-Alive {t} {u} (exited p ec l e (ready, turn, t', taken, same)) v =
      rw same
        (Ends-Alive-over ec turn t' (rw taken at (select_exit s ec (exit ec) p os t.trace refl)))
  Step-Alive {t} {u} (worked h m same) v = rw same v
  Step-Alive {t} {u} (returned ec h e m same) v = rw same (Alive-exiting t.turn t.phase ec v)

  pub Reach-Alive :
      {t u : State S} → Reach May s os t u → Alive t.turn t.phase → Alive u.turn u.phase
  Reach-Alive here v = v
  Reach-Alive (next r st) v = Step-Alive st (Reach-Alive r v)

  -- A step is open behind which the handler and the goroutine of Execute are there, and the loop,
  -- where it goes on, is as the predicate says.
  abbrev pub Happens : (Round → Type 0) → State S → S → Phase → Type 0
  Happens P t h phase =
      (u : State S) × Step May s os t u × (u.handler ≡ h) × (u.phase ≡ phase) × Turned P u.turn

  -- The handler is ready for any request.
  abbrev pub IsWilling : S → Type 0
  IsWilling h = (c : ChangeRequest) → (h' : S) × May h (receives c h')

  -- Execute may return, and then its exit code is taken, which ends the loop.
  abbrev pub CanEnd : Round → State S → Phase → Type 0
  CanEnd p t executing =
      (ec : ExitCode) (h : S) → May t.handler (returns ec h) → Happens (λ q. q ≡ p) t h (exiting ec)
  CanEnd p t (exiting ec) = Happens (λ q. ⊥) t t.handler (over ec)
  CanEnd p t (over ec) = ⊥

  -- The loop takes whatever the handler wants to send, and has it as its status where the report
  -- does not fail; it does not keep the handler from going on or from ending; and where the handler
  -- waits for a request there is one for it, or the loop takes the next control.
  abbrev pub NotStuck : Round → State S → Type 0
  NotStuck p t =
      ((st : Status) (h : S)
        → May t.handler (sends st h)
        → Happens (λ q. q.vars.status ≡ st) t h t.phase)
      × ((h : S) → May t.handler (works h) → Happens (λ q. q ≡ p) t h t.phase)
      × CanEnd p t t.phase
      × (IsWilling t.handler
          → ((h : S) × May t.handler (receives (request_of p) h)
              × Happens (λ q. q.vars.inch ≡ true) t h t.phase)
            ⊎ ((e : CtlEvent) → Happens (λ q. q.vars.cmd ≡ e.cmd) t t.handler t.phase))

  take :
      (P : Round → Type 0) (t : State S) (p : Round) (o : Offer) (h : S) (phase : Phase)
      → is_ready p.vars o ≡ true
      → Ends (Kept P) Broken (select s o p os t.trace)
      → (u : State S) × Takes May s os t p o h phase u
        × (u.handler ≡ h)
        × (u.phase ≡ phase)
        × Turned P u.turn
  take P t p o h phase ready v =
      let (turn, (t', e)) = Ends-ok (select s o p os t.trace) (select-Ends s o p os t.trace) in
      (
        record { handler = h; phase = phase; turn = turn; trace = t' },
        (ready, turn, t', e, refl),
        refl,
        refl,
        Ends-Turned P turn t' (rw e at v),
      )

  request :
      (t : State S) (p : Round) (pending : Bool)
      → t.turn ≡ go_on p
      → IsSound p
      → p.vars.outch ≡ pending
      → IsWilling t.handler
      → ((h : S) × May t.handler (receives (request_of p) h)
          × Happens (λ q. q.vars.inch ≡ true) t h t.phase)
        ⊎ ((e : CtlEvent) → Happens (λ q. q.vars.cmd ≡ e.cmd) t t.handler t.phase)
  request t p true l v o willing =
      let (h, m) = willing (request_of p) in
      let (u, x, y, z, w) =
        take (λ q. q.vars.inch ≡ true) t p deliver h t.phase o (select-deliver s p os t.trace o) in
      inl (h, m, (u, delivered p h l m x, y, z, w))
  request t p false l v o willing = inr (λ c.
      let open_now : p.vars.inch ≡ true = v.one_channel ∙ ap not o in
      let (u, x, y, z, w) =
        take (λ q. q.vars.cmd ≡ c.cmd) t p (control c) t.handler t.phase open_now
          (select-control s c p os t.trace open_now) in
      (u, controlled p c l x, y, z, w))

  can_end :
      (t : State S) (p : Round) (phase : Phase)
      → t.turn ≡ go_on p
      → t.phase ≡ phase
      → IsThere phase
      → CanEnd p t phase
  can_end t p executing l e k = λ ec h m.
      (record t { handler = h; phase = exiting ec }, returned ec h e m refl, refl, refl, rw l refl)
  can_end t p (exiting ec) l e k =
      let (u, x, y, z, w) =
        take (λ q. ⊥) t p (exit ec) t.handler (over ec) refl
          (select_exit s ec (exit ec) p os t.trace refl) in
      (u, exited p ec l e x, y, z, w)
  can_end t p (over ec) l e k = k

-- run and its handler never block each other, whatever the handler, the order of events and the
-- answers of Windows. In every state that they reach from the start of the loop and where the loop
-- goes on: a status that the handler wants to send is taken, and is the status of the loop unless
-- that ends with it; the handler can go on; Execute can return; its exit code is taken and ends the
-- loop; and where the handler waits for any request it can take the one that is pending, behind
-- which the loop is open for a control, or the loop can receive the next control.
pub handler-NotStuck :
    {S : Type 0} (May : S → Act S → Type 0) (s : Service) (os : Os) (h : S) (t : Trace)
    (u : State S) (p : Round)
    → Reach May s os (first_state h t) u
    → u.turn ≡ go_on p
    → NotStuck May s os p u
handler-NotStuck May s os h t u p r l =
    let (v, there) = rw l at (Reach-Alive May s os r (start-IsSound, tt)) in
    (
      (λ st g m.
          let (x, k, y, z, w) =
            take May s os (λ q. q.vars.status ≡ st) u p (change st) g u.phase refl
              (select-change s st p os u.trace) in
          (x, changed p st g l m k, y, z, w)),
      (λ g m. (record u { handler = g }, worked g m refl, refl, refl, rw l refl)),
      can_end May s os u p u.phase l refl there,
      request May s os u p p.vars.outch l v refl,
    )
