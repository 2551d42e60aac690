-- ===== src/Tests/SvcHandler.antt =====
-- A handler that takes one request, says that it runs and then returns.
use winsvc.Prelude.{ℕ, refl, true, false, [], ◌∷◌}
use winsvc.Svc.Types.{ChangeRequest}
use winsvc.Svc.Loop.{received, sent, Round, start_round, go_on, select}
use winsvc.Svc.Handler.{
  Act, sends, receives, returns, executing, State, first_state, request_of, controlled, delivered,
  Reach, here, next,
}
use winsvc.Svc.Handler.Progress.{NotStuck, handler-NotStuck}
use winsvc.Svc.Handler.Sequence.{IsSequential, handler-IsSequential}
use winsvc.Tests.Data.{generous, beeper, event_of, status_with, exit_with}

data May : ℕ → Act ℕ → Type 0 where
  obeys : (c : ChangeRequest) → May 0 (receives c 1)
  greets : May 1 (sends (status_with 4 1) 2)
  ends : May 2 (returns (exit_with 3) 2)

-- A stop request has come.
abbrev pending : Round
pending = record {
  vars = record (start_round.vars) { inch = false; outch = true; cmd = 1 };
  log = received 1 ∷ [];
}

-- It is with the handler, which still has to say that it runs.
abbrev told : Round
told = record {
  vars = record (start_round.vars) { cmd = 1 };
  log = sent (request_of pending) ∷ received 1 ∷ [];
}

abbrev begun : State ℕ
begun = record { handler = 1; phase = executing; turn = go_on told; trace = [] }

Reach-begun : Reach May beeper generous (first_state 0 []) begun
unfolding select
Reach-begun =
    next
      (next {v = record { handler = 0; phase = executing; turn = go_on pending; trace = [] }} here
        (controlled start_round (event_of 1 0) refl (refl, go_on pending, [], refl, refl)))
      (delivered pending 1 refl (obeys (request_of pending)) (refl, go_on told, [], refl, refl))

handler-NotStuck_example : NotStuck May beeper generous told begun
handler-NotStuck_example = handler-NotStuck May beeper generous 0 [] begun told Reach-begun refl

handler-IsSequential_example : IsSequential May 0 beeper generous [] begun
handler-IsSequential_example = handler-IsSequential May beeper generous 0 [] begun Reach-begun
