-- ===== src/Example/Goroutines/Crash.antt =====
-- When the goroutines of PreShutdown panic.
use winsvc.Prelude.{
  ℕ, suc, ◌≡◌, ◌≢◌, ◌≤◌, sym, ◌+◌, ◌%◌, ◌^◌, Bool, ltb, ◌||◌, ◌==◌, if◌then◌else◌, List, [], ◌∷◌,
  ◌++◌, length, length-append, Option, some, arith,
}
use winsvc.Winapi.System.{Os, Trace}
use winsvc.Svc.Types.{
  Status, ChangeRequest, ExitCode, Service, interrogate, stop, shutdown, pre_shutdown, pause,
  continue,
}
use winsvc.Svc.Handler.{State, first_state, Reach}
use winsvc.Svc.Handler.Sequence.{asked, log_of, handler-IsSequential}
use winsvc.Svc.Handler.Alone.{Runs, start, send, receive, work, leave}
use winsvc.Example.Goroutines.{
  Place, starting, announcing, selecting, echoing, echoing_again, pausing, continuing, leaving,
  ending, ended, crashed, Worker, going, offering, asleep, Execution, at_start, says, on_request,
  wake, Speaks, main_speaks, worker_speaks, Works, ticks, shuts, concludes, worker_offers,
  worker_wakes, Execute,
}
use winsvc.Example.Goroutines.Frames.{says-Framed, on_both}

-- The PreShutdown requests.
abbrev pub count : List ChangeRequest → ℕ
count [] = 0
count (c ∷ cs) = (if c.cmd == pre_shutdown then 1 else 0) + count cs

abbrev pub flag : Bool → ℕ
flag b = if b then 1 else 0

-- Each goroutine and each closing of the channel has a request of its own.
abbrev pub IsCounted : ℕ → Execution → Type 0
IsCounted n t = (t.place ≡ crashed → 2 ≤ n) × (length t.workers + flag t.is_shutdown ≤ n)

says-crashed :
    (place : Place) (t u : Execution) (st : Status)
    → says place t ≡ some (st, u)
    → u.place ≢ crashed
says-crashed starting t u st h e = ground arith
says-crashed announcing t u st h e = ground arith
says-crashed selecting t u st h e = ground arith
says-crashed (echoing x) t u st h e = ground arith
says-crashed (echoing_again x) t u st h e = ground arith
says-crashed pausing t u st h e = ground arith
says-crashed continuing t u st h e = ground arith
says-crashed leaving t u st h e = ground arith
says-crashed (ending x) t u st h e = ground arith
says-crashed ended t u st h e = ground arith
says-crashed crashed t u st h e = ground arith

length-between :
    (xs ys : List Worker) (w : Worker) → length (xs ++ w ∷ ys) ≡ suc (length xs + length ys)
length-between xs ys w = omega (arith, length-append xs (w ∷ ys))

length-swap : (xs ys : List Worker) (w w' : Worker) → length (xs ++ w ∷ ys) ≡ length (xs ++ w' ∷ ys)
length-swap xs ys w w' = omega (arith, length-between xs ys w, length-between xs ys w')

Speaks-IsCounted :
    (n : ℕ) (t u : Execution) (st : Status) → IsCounted n t → Speaks t st u → IsCounted n u
Speaks-IsCounted n t u st (c, b) (main_speaks h) =
    let (ws, d, cp) = says-Framed t.place t u st h in
    ((λ e. absurd (says-crashed t.place t u st h e)), rw (ws, d) b)
Speaks-IsCounted n t u st (c, b) (worker_speaks xs ys e same) =
    rw same (c, rw (length-swap xs ys asleep (offering st)) (rw e at b))

wake-IsCounted :
    (n : ℕ) (t : Execution) (xs ys : List Worker)
    → t.workers ≡ xs ++ asleep ∷ ys
    → IsCounted n t
    → IsCounted n (wake xs ys t)
unfolding wake
wake-IsCounted n t xs ys e (c, b) =
    let P = IsCounted n in
    let b' : suc (length xs + length ys) + flag t.is_shutdown ≤ n =
      rw (sym (length-between xs ys asleep)) (rw e at b) in
    on_both P (ltb 30 ((t.checkpoint + 1) % 2 ^ 32))
      (λ l.
        on_both P t.is_shutdown
          (λ d. let b'' = rw d at b' in ((λ k. omega (arith, b'')), omega (arith, b'')))
          (λ d. (c, omega (arith, rw d at b', length-append xs ys))))
      (λ l. (c, rw (length-swap xs ys going asleep) (rw e at b)))

Works-IsCounted : (n : ℕ) (t u : Execution) → IsCounted n t → Works t u → IsCounted n u
Works-IsCounted n t u v (ticks e same) = rw same v
Works-IsCounted n t u (c, b) (shuts e k same) = rw same ((λ h. ground arith), b)
Works-IsCounted n t u (c, b) (concludes e same) = rw same ((λ h. ground arith), b)
Works-IsCounted n t u (c, b) (worker_offers xs ys e same) =
    rw same (c, rw (length-swap xs ys (offering _) going) (rw e at b))
Works-IsCounted n t u v (worker_wakes xs ys e same) = rw same (wake-IsCounted n t xs ys e v)

count-cons : (cs : List ChangeRequest) (c : ChangeRequest) → count cs ≤ count (c ∷ cs)
count-cons cs c = omega arith

request-IsCounted :
    (cs : List ChangeRequest) (t : Execution) (c : ChangeRequest)
    → IsCounted (count cs) t
    → IsCounted (count (c ∷ cs)) (on_request c t)
unfolding on_request
request-IsCounted cs t c (k, b) =
    let P = IsCounted (count (c ∷ cs)) in
    let more = count-cons cs c in
    let b' : length t.workers + flag t.is_shutdown ≤ count (c ∷ cs) = omega (arith, b, more) in
    on_both P (c.cmd == interrogate) (λ h. ((λ e. ground arith), b'))
      (λ h.
        on_both P (c.cmd == stop || (c.cmd == shutdown)) (λ h. ((λ e. ground arith), b'))
          (λ h.
            on_both P (c.cmd == pre_shutdown)
              (λ h. ((λ e. omega (arith, k e, more)), rw h (omega (arith, b))))
              (λ h.
                on_both P (c.cmd == pause) (λ h. ((λ e. ground arith), b'))
                  (λ h.
                    on_both P (c.cmd == continue) (λ h. ((λ e. ground arith), b'))
                      (λ h. ((λ e. omega (arith, k e, more)), b'))))))

pub Runs-IsCounted :
    {cs : List ChangeRequest} {told : List Status} {t : Execution} {x : Option ExitCode}
    → Runs Execute at_start cs told t x
    → IsCounted (count cs) t
Runs-IsCounted start = ((λ e. ground arith), omega arith)
Runs-IsCounted {cs} {t = u} (send {h = t} st h' m r) =
    Speaks-IsCounted (count cs) t u st (Runs-IsCounted r) m
Runs-IsCounted (receive {cs} {h = t} c h' now (e, same) r) =
    rw same (request-IsCounted cs t c (Runs-IsCounted r))
Runs-IsCounted {cs} {t = u} (work {h = t} h' m r) =
    Works-IsCounted (count cs) t u (Runs-IsCounted r) m
Runs-IsCounted (leave ec h' (e, k, same) r) = rw same (Runs-IsCounted r)

-- The service of the example does not panic as long as run has handed on at most one PreShutdown
-- request, however run, Execute and its goroutines interleave and whatever Windows answers.
pub Execute-runs_on :
    (s : Service) (os : Os) (t : Trace) (u : State Execution)
    → Reach Execute s os (first_state at_start t) u
    → count (asked (log_of u.turn)) ≤ 1
    → u.handler.place ≢ crashed
Execute-runs_on s os t u r few e =
    let (offers, run, now, reports, runs) = handler-IsSequential Execute s os at_start t u r in
    omega (arith, few, (Runs-IsCounted runs).0 e)
