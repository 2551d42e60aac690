-- ===== src/Tests/SvcLoop.antt =====
-- The loop of run on a short life of a service.
use mathlib.Core.List.{Memᴰ}
use winsvc.Prelude.{◌≡◌, refl, List, [], ◌∷◌, ◌++◌, true, false}
use winsvc.Winapi.System.{Trace, ok}
use winsvc.Svc.Types.{running, paused, pause, stop, interrogate}
use winsvc.Svc.Service.{update_status}
use winsvc.Svc.Loop.{
  Offer, control, deliver, change, exit, Round, start_round, go_on, break_loop, run_loop, select,
  sent, received, reported,
}
use winsvc.Svc.Loop.Rule.{Ends}
use winsvc.Svc.Loop.Mailbox.{
  IsSound, Sound, run_loop-Sound, arrived, handed, pending, run_loop-IsFifo,
}
use winsvc.Svc.Loop.Breaks.{Anywhere, Breaks, IsCause, run_loop-IsCause}
use winsvc.Tests.Data.{generous, refusing, beeper, event_of, status_with, exit_with}

-- The second command waits until the first is delivered.
abbrev life : List Offer
life =
    change (status_with running 5)
    ∷ control (event_of pause 0)
    ∷ control (event_of stop 0)
    ∷ deliver
    ∷ control (event_of interrogate 0)
    ∷ change (status_with paused 5)
    ∷ deliver
    ∷ control (event_of stop 0)
    ∷ exit (exit_with 3)
    ∷ []

life_test :
    (run_loop beeper life start_round generous []).0
    ≡ ok (
        break_loop (exit_with 3) (record {
          vars = record {
            status = status_with paused 5;
            ec = record { is_svc_specific = true; errno = 0 };
            outch = true;
            inch = false;
            cmd = stop;
          };
          log =
              received stop
              ∷ sent (record { cmd = interrogate; current_status = status_with paused 5 })
              ∷ reported (status_with paused 5)
              ∷ received interrogate
              ∷ sent (record { cmd = pause; current_status = status_with running 5 })
              ∷ received pause
              ∷ reported (status_with running 5)
              ∷ [];
        }))
unfolding run_loop select update_status
life_test = refl

run_loop-Sound_example :
    Ends Sound (λ ec p t. IsSound p) (run_loop beeper life start_round generous [])
run_loop-Sound_example = run_loop-Sound beeper life generous []

run_loop-IsFifo_example :
    Ends
      (λ p t. arrived p.log ≡ handed p.log ++ pending p.vars)
      (λ ec p t. arrived p.log ≡ handed p.log ++ pending p.vars)
      (run_loop beeper life start_round generous [])
run_loop-IsFifo_example = run_loop-IsFifo beeper life generous []

run_loop-IsCause_example :
    Ends Anywhere (λ ec p t. IsCause life ec) (run_loop beeper life start_round refusing [])
    × ((p : Round) (t : Trace) (later : List Offer)
        → run_loop beeper life start_round refusing [] ≡ (ok (go_on p), t)
        → Breaks beeper refusing [] life later p t)
run_loop-IsCause_example = run_loop-IsCause beeper life refusing []

last_offer : Memᴰ (exit (exit_with 3)) life
last_offer = Memᴰ.tail (
    Memᴰ.tail
      (Memᴰ.tail (Memᴰ.tail (Memᴰ.tail (Memᴰ.tail (Memᴰ.tail (Memᴰ.tail (Memᴰ.head refl))))))))
