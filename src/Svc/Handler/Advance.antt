-- ===== src/Svc/Handler/Advance.antt =====
-- How run and a handler come to the end of the loop, step by step.
use winsvc.Prelude.{◌⊎◌, inl, ◌≡◌, refl, true, false, arith, ◌∷◌}
use winsvc.Winapi.System.{Call, Os, Trace, ok}
use winsvc.Svc.Types.{CtlEvent, ExitCode, Service, Status}
use winsvc.Svc.Service.{update_status}
use winsvc.Svc.Loop.{
  Offer, control, deliver, change, exit, Round, Turn, go_on, break_loop, is_ready, select,
}
use winsvc.Svc.Loop.Rule.{Ends}
use winsvc.Svc.Loop.Breaks.{select-Ends}
use winsvc.Svc.Loop.Mailbox.{IsSound, Sound, select-Sound}
use winsvc.Svc.Handler.{
  Act, sends, receives, works, returns, Phase, executing, exiting, over, State, request_of, Takes,
  Step, controlled, delivered, changed, exited, worked, returned,
}
use winsvc.Svc.Handler.Progress.{Kept, Ends-ok}

-- The last call was a status report that Windows refused.
abbrev pub IsRefused : Trace → Type 0
IsRefused ((Call.set_service_status h st, r) ∷ t) = r.r0 ≡ 0
IsRefused _ = ⊥

-- The loop broke off with the exit code that Execute returned, or at a report that failed, for want
-- of a status handle or by Windows.
abbrev pub IsLeft : Service → Turn → Phase → Trace → Type 0
IsLeft s (go_on p) phase t = ⊥
IsLeft s (break_loop ec p) phase t = (phase ≡ over ec) ⊎ (s.h ≡ 0) ⊎ IsRefused t

-- The breaks of a select, for the phase behind it.
abbrev Breaks : Service → Phase → ExitCode → Round → Trace → Type 0
Breaks s phase ec p t = IsLeft s (break_loop ec p) phase t

keep_change :
    (s : Service) (st : Status) (phase : Phase) (p : Round) (os : Os) (t : Trace)
    → Ends (Kept (λ q. q.vars.inch ≡ p.vars.inch)) (Breaks s phase) (select s (change st) p os t)
unfolding select update_status
keep_change s st phase p os t = ground arith

keep_deliver :
    (s : Service) (phase : Phase) (p : Round) (os : Os) (t : Trace)
    → p.vars.outch ≡ true
    → Ends (Kept (λ q. q.vars.inch ≡ true)) (Breaks s phase) (select s deliver p os t)
unfolding select
keep_deliver s phase p os t h = ground arith

keep_control :
    (s : Service) (e : CtlEvent) (phase : Phase) (p : Round) (os : Os) (t : Trace)
    → p.vars.inch ≡ true
    → e.errno ≡ 0
    → Ends
        (Kept (λ q. (q.vars.inch ≡ false) × (q.vars.cmd ≡ e.cmd)))
        (Breaks s phase)
        (select s (control e) p os t)
unfolding select
keep_control s e phase p os t h k = ground arith

keep_exit :
    (s : Service) (ec : ExitCode) (p : Round) (os : Os) (t : Trace)
    → Ends (Kept (λ q. ⊥)) (Breaks s (over ec)) (select s (exit ec) p os t)
unfolding select
keep_exit s ec p os t = inl refl

module _ {S : Type 0} (May : S → Act S → Type 0) (s : Service) (os : Os)
    (Wanted : CtlEvent → Type 0) where
  -- A control comes only where it is wanted.
  abbrev pub IsWanted : {t u : State S} → Step May s os t u → Type 0
  IsWanted (controlled p e l k) = Wanted e
  IsWanted (delivered p h l m k) = Unit
  IsWanted (changed p st h l m k) = Unit
  IsWanted (exited p ec l e k) = Unit
  IsWanted (worked h m same) = Unit
  IsWanted (returned ec h e m same) = Unit

  -- There are steps, with no control but those that are wanted, to where the loop was left.
  pub data CanLeave : State S → Type 0 where
    left : {t : State S} → IsLeft s t.turn t.phase t.trace → CanLeave t
    go : {t u : State S} (st : Step May s os t u) → IsWanted st → CanLeave u → CanLeave t

  -- The loop goes on from a round, with the handler in a state.
  pub record IsAt (p : Round) (h : S) (ph : Phase) (t : State S) : Type 0 where
    pub turn : t.turn ≡ go_on p
    pub sound : IsSound p
    pub handler : t.handler ≡ h
    pub phase : t.phase ≡ ph

  settle :
      (P : Round → Type 0) (t : State S) (h : S) (phase : Phase) (turn : Turn) (t' : Trace)
      (st : Step May s os t (record { handler = h; phase = phase; turn = turn; trace = t' }))
      → IsWanted st
      → Ends Sound (λ ec p t. IsSound p) (ok turn, t')
      → Ends (Kept P) (Breaks s phase) (ok turn, t')
      → ((u : State S) (p : Round) → IsAt p h phase u → P p → CanLeave u)
      → CanLeave t
  settle P t h phase (break_loop ec p) t' st wanted v w k = go st wanted (left w)
  settle P t h phase (go_on p) t' st wanted v w k = go st wanted (
      k (record { handler = h; phase = phase; turn = go_on p; trace = t' }) p
        (record { turn = refl; sound = v; handler = refl; phase = refl }) w)

  -- The loop takes an offer.
  advance :
      (P : Round → Type 0) (t : State S) (o : Offer) (p : Round) (h : S) (phase : Phase)
      → ((u : State S) → Takes May s os t p o h phase u → (st : Step May s os t u) × IsWanted st)
      → IsSound p
      → is_ready p.vars o ≡ true
      → Ends (Kept P) (Breaks s phase) (select s o p os t.trace)
      → ((u : State S) (p' : Round) → IsAt p' h phase u → P p' → CanLeave u)
      → CanLeave t
  advance P t o p h phase f v ready w k =
      let (turn, (t', taken)) = Ends-ok (select s o p os t.trace) (select-Ends s o p os t.trace) in
      let (st, wanted) =
        f (record { handler = h; phase = phase; turn = turn; trace = t' })
          (ready, turn, t', taken, refl) in
      settle P t h phase turn t' st wanted (rw taken at (select-Sound s os o p t.trace v))
        (rw taken at w) k

  pub advance_exit :
      (t : State S) (p : Round) (h : S) (ec : ExitCode) → IsAt p h (exiting ec) t → CanLeave t
  advance_exit t p h ec a =
      advance (λ q. ⊥) t (exit ec) p t.handler (over ec) (λ u x. (exited p ec a.turn a.phase x, tt))
        a.sound refl (keep_exit s ec p os t.trace) (λ u q b v. absurd v)

  module _ (t : State S) (p : Round) (h : S) where
    pub advance_change :
        (phase : Phase) (st : Status) (h' : S)
        → IsAt p h phase t
        → May h (sends st h')
        → ((u : State S) (p' : Round)
            → IsAt p' h' phase u
            → p'.vars.inch ≡ p.vars.inch
            → CanLeave u)
        → CanLeave t
    advance_change phase st h' a m k =
        advance (λ q. q.vars.inch ≡ p.vars.inch) t (change st) p h' phase
          (λ u x. (changed p st h' a.turn (rw (a.handler) m) (rw (a.phase) x), tt)) a.sound refl
          (keep_change s st phase p os t.trace) k

    pub advance_deliver :
        (phase : Phase) (h' : S)
        → IsAt p h phase t
        → p.vars.inch ≡ false
        → May h (receives (request_of p) h')
        → ((u : State S) (p' : Round) → IsAt p' h' phase u → p'.vars.inch ≡ true → CanLeave u)
        → CanLeave t
    advance_deliver phase h' a i m k =
        let o : p.vars.outch ≡ true = ground (arith, a.sound.one_channel, i) in
        advance (λ q. q.vars.inch ≡ true) t deliver p h' phase
          (λ u x. (delivered p h' a.turn (rw (a.handler) m) (rw (a.phase) x), tt)) a.sound o
          (keep_deliver s phase p os t.trace o) k

    pub advance_control :
        (phase : Phase) (e : CtlEvent)
        → Wanted e
        → e.errno ≡ 0
        → IsAt p h phase t
        → p.vars.inch ≡ true
        → ((u : State S) (p' : Round)
            → IsAt p' h phase u
            → (p'.vars.inch ≡ false) × (p'.vars.cmd ≡ e.cmd)
            → CanLeave u)
        → CanLeave t
    advance_control phase e wanted no_errno a i k =
        advance (λ q. (q.vars.inch ≡ false) × (q.vars.cmd ≡ e.cmd)) t (control e) p h phase
          (λ u x. (controlled p e a.turn (rw (a.handler, a.phase) x), wanted)) a.sound i
          (keep_control s e phase p os t.trace i no_errno) k

    pub advance_work :
        (phase : Phase) (h' : S)
        → IsAt p h phase t
        → May h (works h')
        → ((u : State S) → IsAt p h' phase u → CanLeave u)
        → CanLeave t
    advance_work phase h' a m k =
        let u : State S = record t { handler = h' } in
        go (worked h' (rw (a.handler) m) refl) tt
          (k u (record { turn = a.turn; sound = a.sound; handler = refl; phase = a.phase }))

    -- Execute returns, and the loop takes its exit code.
    pub advance_return :
        (ec : ExitCode) (h' : S) → IsAt p h executing t → May h (returns ec h') → CanLeave t
    advance_return ec h' a m =
        let u : State S = record t { handler = h'; phase = exiting ec } in
        go (returned ec h' a.phase (rw (a.handler) m) refl) tt (
          advance_exit u p h' ec
            (record { turn = a.turn; sound = a.sound; handler = refl; phase = refl }))
