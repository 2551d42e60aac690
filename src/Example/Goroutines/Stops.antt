-- ===== src/Example/Goroutines/Stops.antt =====
-- The service of the example can be stopped.
use winsvc.Prelude.{
  ℕ, ◌⊎◌, inl, inr, ◌≡◌, ◌≢◌, refl, ap, ◌∙◌, Bool, true, false, ◌||◌, ◌==◌, some, arith,
}
use winsvc.Winapi.System.{Os, Trace}
use winsvc.Svc.Types.{
  Status, ChangeRequest, CtlEvent, Service, bare_status, start_pending, running, paused,
  interrogate, stop, shutdown, pre_shutdown, pause, continue,
}
use winsvc.Svc.Loop.{Round, go_on}
use winsvc.Svc.Loop.Mailbox.{IsSound, start-IsSound}
use winsvc.Svc.Handler.{State, Phase, executing, exiting, over, first_state, request_of, Reach}
use winsvc.Svc.Handler.Progress.{IsThere, Reach-Alive}
use winsvc.Svc.Handler.Advance.{
  CanLeave, IsAt, advance_change, advance_deliver, advance_control, advance_work, advance_return,
  advance_exit,
}
use winsvc.Example.Handler.{accepting}
use winsvc.Example.Goroutines.{
  Place, starting, announcing, selecting, echoing, echoing_again, pausing, continuing, leaving,
  ending, ended, crashed, Execution, at_start, says, on_request, last_status, main_speaks,
  concludes, no_error, Execute,
}
use winsvc.Example.Goroutines.Frames.{on_both, on_request-stop, on_request-shutdown}

-- A request that Execute takes does not crash it.
on_request-crashed :
    (c : ChangeRequest) (h : Execution) → h.place ≡ selecting → (on_request c h).place ≢ crashed
unfolding on_request
on_request-crashed c h e =
    let P : Execution → Type 0 = λ t. t.place ≢ crashed in
    on_both P (c.cmd == interrogate) (λ _ k. ground arith)
      (λ _.
        on_both P (c.cmd == stop || (c.cmd == shutdown)) (λ _ k. ground arith)
          (λ _.
            on_both P (c.cmd == pre_shutdown) (λ _ k. cc (e, k))
              (λ _.
                on_both P (c.cmd == pause) (λ _ k. ground arith)
                  (λ _. on_both P (c.cmd == continue) (λ _ k. ground arith) (λ _ k. cc (e, k))))))

-- The commands that end Execute.
abbrev pub Ends : ℕ → Type 0
Ends cmd = (cmd ≡ stop) ⊎ (cmd ≡ shutdown)

-- A control with this command, on the thread of Run.
abbrev pub Commands : ℕ → CtlEvent → Type 0
Commands cmd e = (e.cmd ≡ cmd) × (e.errno ≡ 0)

on_request-leaving :
    (cmd : ℕ) (c : ChangeRequest) (t : Execution)
    → Ends cmd
    → c.cmd ≡ cmd
    → on_request c t ≡ record t { place = leaving }
on_request-leaving cmd c t (inl h) e = on_request-stop c t (e ∙ h)
on_request-leaving cmd c t (inr h) e = on_request-shutdown c t (e ∙ h)

abbrev event_of : ℕ → CtlEvent
event_of cmd = record { cmd = cmd; event_type = 0; event_data = 0; context = 0; errno = 0 }

module _ (s : Service) (os : Os) (cmd : ℕ) (command : Ends cmd) where
  abbrev CanStop : State Execution → Type 0
  CanStop = CanLeave Execute s os (Commands cmd)

  abbrev At : Round → Execution → State Execution → Type 0
  At p h u = IsAt Execute s os (Commands cmd) p h executing u

  from_ended :
      (u : State Execution) (p : Round) (h : Execution) → h.place ≡ ended → At p h u → CanStop u
  from_ended u p h e a =
      advance_return Execute s os (Commands cmd) u p h no_error h a (e, refl, refl)

  from_ending :
      (u : State Execution) (p : Round) (h : Execution) (st : Status)
      → h.place ≡ ending st
      → At p h u
      → CanStop u
  from_ending u p h st e a =
      let h' = record h { place = ended } in
      advance_change Execute s os (Commands cmd) u p h executing st h' a (main_speaks (rw e refl))
        (λ v q b i. from_ended v q h' refl b)

  from_leaving :
      (u : State Execution) (p : Round) (h : Execution) → h.place ≡ leaving → At p h u → CanStop u
  from_leaving u p h e a =
      let h' = record h { place = ending (last_status h) } in
      advance_work Execute s os (Commands cmd) u p h executing h' a (concludes e refl)
        (λ v b. from_ending v p h' (last_status h) refl b)

  -- What can be stopped where Execute selects and inch is as given.
  abbrev Selecting : Bool → Type 0
  Selecting b =
      (u : State Execution) (p : Round) (h : Execution)
      → h.place ≡ selecting
      → p.vars.inch ≡ b
      → At p h u
      → CanStop u

  from_open : Selecting true
  from_open u p h e i a =
      advance_control Execute s os (Commands cmd) u p h executing (event_of cmd) (refl, refl) refl a
        i
        (λ v q b (closed, same).
          advance_deliver Execute s os (Commands cmd) v q h executing (on_request (request_of q) h)
            b closed (e, refl)
            (λ w r c opened.
              from_leaving w r (on_request (request_of q) h)
                (ap (λ t. t.place) (on_request-leaving cmd (request_of q) h command same)) c))

  module _ (b : Bool) (k : Selecting b) (u : State Execution) (p : Round) (h : Execution)
      (i : p.vars.inch ≡ b) (a : At p h u) where
    -- One status leads to the select, or two.
    speak :
        (st : Status) (h' : Execution)
        → says h.place h ≡ some (st, h')
        → h'.place ≡ selecting
        → CanStop u
    speak st h' m e =
        advance_change Execute s os (Commands cmd) u p h executing st h' a (main_speaks m)
          (λ v q c j. k v q h' e (j ∙ i) c)

  module _ (b : Bool) (k : Selecting b) (u : State Execution) (p : Round) (h : Execution)
      (i : p.vars.inch ≡ b) (a : At p h u) where
    speak_twice :
        (st st' : Status) (h' h'' : Execution)
        → says h.place h ≡ some (st, h')
        → says h'.place h' ≡ some (st', h'')
        → h''.place ≡ selecting
        → CanStop u
    speak_twice st st' h' h'' m m' e =
        advance_change Execute s os (Commands cmd) u p h executing st h' a (main_speaks m)
          (λ v q c j. speak b k v q h' (j ∙ i) c st' h'' m' e)

    from_place : (place : Place) → h.place ≡ place → place ≢ crashed → CanStop u
    from_place starting e n =
        speak_twice (bare_status start_pending) (accepting running)
          (record h { place = announcing }) (record h { place = selecting }) (rw e refl) refl refl
    from_place announcing e n =
        speak b k u p h i a (accepting running) (record h { place = selecting }) (rw e refl) refl
    from_place (echoing st) e n =
        speak_twice st st (record h { place = echoing_again st }) (record h { place = selecting })
          (rw e refl) refl refl
    from_place (echoing_again st) e n =
        speak b k u p h i a st (record h { place = selecting }) (rw e refl) refl
    from_place pausing e n =
        speak b k u p h i a (accepting paused) (record h { place = selecting; fast = false })
          (rw e refl) refl
    from_place continuing e n =
        speak b k u p h i a (accepting running) (record h { place = selecting; fast = true })
          (rw e refl) refl
    from_place selecting e n = k u p h e i a
    from_place leaving e n = from_leaving u p h e a
    from_place (ending st) e n = from_ending u p h st e a
    from_place ended e n = from_ended u p h e a
    from_place crashed e n = absurd (n refl)

  -- A request that is pending goes to Execute first.
  from_pending : Selecting false
  from_pending u p h e i a =
      let h' = on_request (request_of p) h in
      advance_deliver Execute s os (Commands cmd) u p h executing h' a i (e, refl)
        (λ v q b j.
          from_place true from_open v q h' j b h'.place refl
            (on_request-crashed (request_of p) h e))

  from_select : (b : Bool) → Selecting b
  from_select true = from_open
  from_select false = from_pending

  from_phase :
      (u : State Execution) (p : Round) (phase : Phase)
      → u.turn ≡ go_on p
      → u.phase ≡ phase
      → IsSound p
      → IsThere phase
      → u.handler.place ≢ crashed
      → CanStop u
  from_phase u p executing l e v k n =
      from_place p.vars.inch (from_select p.vars.inch) u p u.handler refl
        (record { turn = l; sound = v; handler = refl; phase = e }) u.handler.place refl n
  from_phase u p (exiting ec) l e v k n =
      advance_exit Execute s os (Commands cmd) u p u.handler ec
        (record { turn = l; sound = v; handler = refl; phase = e })
  from_phase u p (over ec) l e v k n = absurd k

-- The service of the example can always be stopped. From each state that run, Execute and its
-- goroutines reach, where the loop goes on and no goroutine has panicked, and whatever Windows
-- answers, there are steps on which no control comes but a given one of Stop and Shutdown, on the
-- thread of Run, to a state where the loop was left with the exit code that Execute returned, or
-- was left at a status report that failed.
pub Execute-CanLeave :
    (s : Service) (os : Os) (cmd : ℕ) (t : Trace) (u : State Execution) (p : Round)
    → Ends cmd
    → Reach Execute s os (first_state at_start t) u
    → u.turn ≡ go_on p
    → u.handler.place ≢ crashed
    → CanLeave Execute s os (Commands cmd) u
Execute-CanLeave s os cmd t u p command r l n =
    let (v, k) = rw l at (Reach-Alive Execute s os r (start-IsSound, tt)) in
    from_phase s os cmd command u p u.phase l refl v k n
