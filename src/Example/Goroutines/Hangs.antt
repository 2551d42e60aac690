-- ===== src/Example/Goroutines/Hangs.antt =====
-- Execute on the console, with a signal while it has a status to send.
use winsvc.Prelude.{◌≡◌, ◌≢◌, refl, sym, ◌∙◌, List, [], Option, none, some, All, arith}
use winsvc.Svc.Types.{Status, ChangeRequest, ExitCode, stop}
use winsvc.Svc.Handler.{Act, sends, receives, works, returns}
use winsvc.Svc.Handler.Alone.{Runs, start, send, receive, work, leave}
use winsvc.Debug.Pump.{Happening, Place, sending}
use winsvc.Debug.Pump.Contract.{Stops, none_yet, signal_came, stop_sent, status_changed}
use winsvc.Debug.Session.{State, first_state, Reach}
use winsvc.Debug.Session.Console.{handed, session-IsConsole}
use winsvc.Debug.Session.Hangs.{Keeps, Reach-IsHung}
use winsvc.Example.Goroutines.{
  selecting, leaving, ending, ended, crashed, Worker, going, offering, asleep, Execution, at_start,
  says, on_request, Speaks, main_speaks, worker_speaks, Works, ticks, shuts, concludes,
  worker_offers, worker_wakes, Execute,
}
use winsvc.Example.Goroutines.Frames.{no_one, says-Framed, on_request-stop}
use winsvc.Example.Goroutines

-- Execute has a status to send before it does anything else.
abbrev pub IsSpeaking : Goroutines.Place → Type 0
IsSpeaking selecting = ⊥
IsSpeaking ended = ⊥
IsSpeaking crashed = ⊥
IsSpeaking _ = Unit

abbrev Quiet : Execution → Type 0
Quiet t = IsSpeaking t.place × (t.workers ≡ [])

Works-Quiet : (t u : Execution) → Quiet t → Works t u → Quiet u
Works-Quiet t u (l, n) (ticks e same) = absurd (rw e at l)
Works-Quiet t u (l, n) (shuts e k same) = absurd (rw e at l)
Works-Quiet t u (l, n) (concludes e same) = rw same (tt, n)
Works-Quiet t u (l, n) (worker_offers xs ys e same) = absurd (no_one going xs ys (sym n ∙ e))
Works-Quiet t u (l, n) (worker_wakes xs ys e same) = absurd (no_one asleep xs ys (sym n ∙ e))

act-Quiet : (t : Execution) (a : Act Execution) → Quiet t → Execute t a → Keeps Quiet a
act-Quiet t (sends st u) q m = tt
act-Quiet t (receives c u) (l, n) (e, same) = rw e at l
act-Quiet t (works u) q m = Works-Quiet t u q m
act-Quiet t (returns ec u) (l, n) (e, k, same) = rw e at l

-- Behind its return Execute is at its end.
abbrev pub Behind : Option ExitCode → Goroutines.Place → Type 0
Behind none place = Unit
Behind (some ec) place = place ≡ ended

Behind-elsewhere :
    (x : Option ExitCode) (place place' : Goroutines.Place)
    → place ≢ ended
    → Behind x place
    → Behind x place'
Behind-elsewhere none place place' k e = tt
Behind-elsewhere (some ec) place place' k e = absurd (k e)

says-elsewhere :
    (place : Goroutines.Place) (t u : Execution) (st : Status)
    → says place t ≡ some (st, u)
    → place ≢ ended
says-elsewhere place t u st h e = ground (arith, rw e at h)

-- Without a PreShutdown there is no goroutine.
abbrev pub IsCalm : Execution → Option ExitCode → Type 0
IsCalm t x = (t.workers ≡ []) × Behind x t.place

Speaks-IsCalm :
    (x : Option ExitCode) (t u : Execution) (st : Status) → IsCalm t x → Speaks t st u → IsCalm u x
Speaks-IsCalm x t u st (n, b) (main_speaks h) = (
  (says-Framed t.place t u st h).0 ∙ n,
  Behind-elsewhere x t.place u.place (says-elsewhere t.place t u st h) b,
)
Speaks-IsCalm x t u st (n, b) (worker_speaks xs ys e same) =
    absurd (no_one (offering st) xs ys (sym n ∙ e))

Works-IsCalm : (x : Option ExitCode) (t u : Execution) → IsCalm t x → Works t u → IsCalm u x
Works-IsCalm x t u (n, b) (ticks e same) = rw same (n, b)
Works-IsCalm x t u (n, b) (shuts e k same) =
    rw same (n, Behind-elsewhere x t.place leaving (λ h. cc (e, h)) b)
Works-IsCalm x t u (n, b) (concludes e same) =
    rw same (n, Behind-elsewhere x t.place _ (λ h. cc (e, h)) b)
Works-IsCalm x t u (n, b) (worker_offers xs ys e same) = absurd (no_one going xs ys (sym n ∙ e))
Works-IsCalm x t u (n, b) (worker_wakes xs ys e same) = absurd (no_one asleep xs ys (sym n ∙ e))

abbrev pub IsStop : ChangeRequest → Type 0
IsStop c = c.cmd ≡ stop

pub Runs-IsCalm :
    {cs : List ChangeRequest} {told : List Status} {t : Execution} {x : Option ExitCode}
    → Runs Execute at_start cs told t x
    → All IsStop cs
    → IsCalm t x
Runs-IsCalm start all = (refl, tt)
Runs-IsCalm {t = u} {x} (send {h = t} st h' m r) all = Speaks-IsCalm x t u st (Runs-IsCalm r all) m
Runs-IsCalm {t = u} {x} (receive {h = t} c h' now (e, same) r) (is_stop, all) =
    let (n, b) = Runs-IsCalm r all in
    rw (same, on_request-stop c t is_stop)
      (n, Behind-elsewhere x t.place leaving (λ h. cc (e, h)) b)
Runs-IsCalm {t = u} {x} (work {h = t} h' m r) all = Works-IsCalm x t u (Runs-IsCalm r all) m
Runs-IsCalm {t = u} (leave {h = t} ec h' (e, k, same) r) all = rw same ((Runs-IsCalm r all).0, e)

pub Stops-All :
    {log : List Happening} {place : Place} {st : Status}
    → Stops log place st
    → All IsStop (handed log)
Stops-All none_yet = tt
Stops-All (signal_came h) = Stops-All h
Stops-All (stop_sent h) = (refl, Stops-All h)
Stops-All (status_changed st h) = Stops-All h

Behind-none :
    (x : Option ExitCode) (place : Goroutines.Place) → IsSpeaking place → Behind x place → x ≡ none
Behind-none none place l b = refl
Behind-none (some ec) place l b = absurd (rw b at l)

-- debug.Run never returns from the handler of the example where a signal is received while Execute
-- has a status to send, at its start or, for a second signal, at its end: wherever the two then go,
-- no status is taken and no request is handed on any more, and Execute does not return.
pub Execute-hangs :
    (u v : State Execution)
    → Reach Execute (first_state at_start) u
    → u.pump.place ≡ sending
    → IsSpeaking u.handler.place
    → Reach Execute u v
    → (v.pump ≡ u.pump) × (v.result ≡ none)
Execute-hangs u v r p l r' =
    let (served, stops) = session-IsConsole Execute at_start u r in
    let (n, b) = Runs-IsCalm served.1 (Stops-All stops) in
    let ((p', q, e), same) =
      Reach-IsHung Execute Quiet act-Quiet r'
        (p, (l, n), Behind-none u.result u.handler.place l b) in
    (same, e)
