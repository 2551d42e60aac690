-- ===== src/Tests/SvcThreads.antt =====
-- The threads of a service from its start to its end.
use winsvc.Prelude.{refl, arith, some, []}
use winsvc.Winapi.System.{ignore}
use winsvc.Svc.Event
use winsvc.Svc.Service.{update_status}
use winsvc.Svc.Types.{bare_status, stopped}
use winsvc.Svc.Loop.{exit, start_round, select, break_loop}
use winsvc.Svc.Run.{arguments}
use winsvc.Svc.Threads.{
  State, first_state, awaiting, back, broken, ended, Reach, here, next, with_handle, register,
  release, begin, call, serve, stop, set, leave,
}
use winsvc.Svc.Threads.Order.{IsOrdered, threads-IsOrdered}
use winsvc.Svc.Threads.Sequence.{IsSequential, threads-IsSequential}
use winsvc.Svc.Threads.Stuck.{Holds, threads-Holds}
use winsvc.Tests.Data.{generous, beeper, event_of, exit_with}

-- The handler returns 3 at once, and a control comes behind the end of the loop.
abbrev left : State
left = record (first_state []) {
  main = awaiting;
  run = broken [] (exit_with 3) start_round;
  handle = 7;
}

abbrev held : State
held = record left { callback = some (event_of 1 0) }

Reach-left : Reach beeper 0 [] generous (first_state []) left
unfolding select arguments
Reach-left =
    next
      (next (next (next here (register 7 (omega arith) refl refl)) (release refl refl))
        (begin [] refl refl refl refl))
      (serve [] (exit (exit_with 3)) start_round (break_loop (exit_with 3) start_round) [] refl tt
        refl refl)

abbrev over : State
over = record held {
  main = back;
  run = ended [] (exit_with 3) start_round;
  trace =
      (ignore (Event.set 11) generous
        (ignore (update_status (with_handle beeper 7) (bare_status stopped) (exit_with 3)) generous
          []).1).1;
}

Reach-over : Reach beeper 0 [] generous held over
Reach-over =
    next
      (next (next here (stop [] (exit_with 3) start_round refl refl))
        (set [] (exit_with 3) start_round refl refl))
      (leave refl refl refl)

Reach-held : Reach beeper 0 [] generous (first_state []) held
Reach-held = next Reach-left (call (event_of 1 0) refl refl)

threads-IsOrdered_example : IsOrdered held
threads-IsOrdered_example = threads-IsOrdered beeper 0 [] generous [] held Reach-held

threads-IsSequential_example : IsSequential beeper 0 [] generous [] held
threads-IsSequential_example = threads-IsSequential beeper 0 [] generous [] held Reach-held

threads-Holds_example : Holds (event_of 1 0) over
threads-Holds_example =
    threads-Holds beeper 0 [] generous (event_of 1 0) held over (tt, refl) Reach-over
