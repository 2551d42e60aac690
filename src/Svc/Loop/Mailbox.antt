-- ===== src/Svc/Loop/Mailbox.antt =====
-- The contract of the loop: a mailbox that hands the commands on in the order of their arrival,
-- each with the status that was reported last.
use winsvc.Prelude.{
  ℕ, ◌≡◌, refl, ◌∙◌, ap, sym, Bool, true, false, not, List, [], ◌∷◌, ◌++◌, arith, if◌then◌else◌,
}
use mathlib.Core.List.{append_assoc}
use winsvc.Winapi.System.{Os, Trace}
use winsvc.Svc.Types.{Status, bare_status, Service, stopped}
use winsvc.Svc.Service.{update_status}
use winsvc.Svc.Loop.{
  Vars, start_round, Offer, control, deliver, change, exit, Happening, received, sent, reported,
  Round, select, run_loop,
}
use winsvc.Svc.Loop.Rule.{Ends, run_loop-Ends, Ends-mono, All-of_mem}

-- What happened, the latest first, the commands that wait and the status that holds.
pub data Mailbox : List Happening → List ℕ → Status → Type 0 where
  empty : Mailbox [] [] (bare_status stopped)
  put :
      {log : List Happening} {q : List ℕ} {st : Status} (c : ℕ) (q' : List ℕ)
      → q' ≡ q ++ c ∷ []
      → Mailbox log q st
      → Mailbox (received c ∷ log) q' st
  take :
      {log : List Happening} {q : List ℕ} {st : Status} (c : ℕ)
      → Mailbox log (c ∷ q) st
      → Mailbox (sent (record { cmd = c; current_status = st }) ∷ log) q st
  tell :
      {log : List Happening} {q : List ℕ} {st : Status} (st' : Status)
      → Mailbox log q st
      → Mailbox (reported st' ∷ log) q st'

-- The command that was received and not yet sent.
abbrev pub pending : Vars → List ℕ
pending v = if v.outch then v.cmd ∷ [] else []

pub record IsSound (p : Round) : Type 0 where
  pub one_channel : p.vars.inch ≡ not p.vars.outch
  pub no_errno : p.vars.ec.errno ≡ 0
  pub svc_specific : p.vars.ec.is_svc_specific ≡ true
  pub mailbox : Mailbox p.log (pending p.vars) p.vars.status

abbrev pub Sound : Round → Trace → Type 0
Sound p t = IsSound p

module _ (s : Service) (os : Os) where
  select-IsSound :
      (o : Offer) (vars : Vars) (log : List Happening) (t : Trace) (outch inch : Bool)
      → let p : Round = record { vars = record vars { outch = outch; inch = inch }; log = log } in
        IsSound p → Ends Sound (λ ec p t. IsSound p) (select s o p os t)
  unfolding select update_status
  select-IsSound (control r) vars log t true true v = absurd (ground (arith, v.one_channel))
  select-IsSound (control r) vars log t false true v =
      ground (arith, put r.cmd (r.cmd ∷ []) refl v.mailbox)
  select-IsSound (control r) vars log t outch false v = v
  select-IsSound deliver vars log t true inch v = ground (arith, take vars.cmd v.mailbox)
  select-IsSound deliver vars log t false inch v = v
  select-IsSound (change c) vars log t outch inch v = ground (arith, tell c v.mailbox)
  select-IsSound (exit e) vars log t outch inch v = v

  run_loop-IsSound :
      (offers : List Offer) (p : Round) (t : Trace)
      → IsSound p
      → Ends Sound (λ ec p t. IsSound p) (run_loop s offers p os t)
  run_loop-IsSound offers =
      run_loop-Ends Sound (λ ec p t. IsSound p) s os offers
        (All-of_mem _ offers
          (λ o _ p t v. select-IsSound o p.vars p.log t p.vars.outch p.vars.inch v))

-- A select keeps the state of the loop sound.
pub select-Sound :
    (s : Service) (os : Os) (o : Offer) (p : Round) (t : Trace)
    → IsSound p
    → Ends Sound (λ ec p t. IsSound p) (select s o p os t)
select-Sound s os o p t v = select-IsSound s os o p.vars p.log t p.vars.outch p.vars.inch v

pub start-IsSound : IsSound start_round
start-IsSound = record { one_channel = refl; no_errno = refl; svc_specific = refl; mailbox = empty }

-- From its start, and for all offers and all answers of Windows, the loop neither fails nor
-- panics. One of its two command channels is open and the other nil, the exit code that status
-- reports carry is still 0, and what its peers saw is a run of the mailbox, whose queue is the
-- pending command and whose status is the loop's.
pub run_loop-Sound :
    (s : Service) (offers : List Offer) (os : Os) (t : Trace)
    → Ends Sound (λ ec p t. IsSound p) (run_loop s offers start_round os t)
run_loop-Sound s offers os t = run_loop-IsSound s os offers start_round t start-IsSound

-- The commands that came in, and those that were handed on, each in order.
abbrev pub arrived : List Happening → List ℕ
arrived [] = []
arrived (received c ∷ log) = arrived log ++ c ∷ []
arrived (sent r ∷ log) = arrived log
arrived (reported st ∷ log) = arrived log

abbrev pub handed : List Happening → List ℕ
handed [] = []
handed (received c ∷ log) = handed log
handed (sent r ∷ log) = handed log ++ r.cmd ∷ []
handed (reported st ∷ log) = handed log

Mailbox-fifo :
    {log : List Happening} {q : List ℕ} {st : Status}
    → Mailbox log q st
    → arrived log ≡ handed log ++ q
Mailbox-fifo empty = refl
Mailbox-fifo (put {log = log} {q = q} c q' e m) =
    ap (λ l. l ++ c ∷ []) (Mailbox-fifo m)
    ∙ (append_assoc (handed log) q (c ∷ []) ∙ ap (λ l. handed log ++ l) (sym e))
Mailbox-fifo (take {log = log} {q = q} c m) =
    Mailbox-fifo m ∙ sym (append_assoc (handed log) (c ∷ []) q)
Mailbox-fifo (tell st' m) = Mailbox-fifo m

abbrev IsFifo : Round → Type 0
IsFifo p = arrived p.log ≡ handed p.log ++ pending p.vars

-- No command is lost, doubled or overtaken: those received are those handed to the handler, in
-- the same order, and then the pending one, if there is one.
pub run_loop-IsFifo :
    (s : Service) (offers : List Offer) (os : Os) (t : Trace)
    → Ends (λ p t. IsFifo p) (λ ec p t. IsFifo p) (run_loop s offers start_round os t)
run_loop-IsFifo s offers os t =
    Ends-mono _ _ _ _ (run_loop s offers start_round os t) (λ p t v. Mailbox-fifo v.mailbox)
      (λ ec p t v. Mailbox-fifo v.mailbox) (run_loop-Sound s offers os t)
