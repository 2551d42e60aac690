-- ===== src/Example/Manage/Polls.antt =====
-- example/manage.go: when controlService is done.
use winsvc.Prelude.{
  ℕ, ◌≡◌, ◌≢◌, refl, Bool, true, false, Option, none, some, List, [], ◌∷◌, All, arith,
}
use winsvc.Unicode.{GoString, has_nul}
use winsvc.Winapi.Procs
use winsvc.Winapi.System.{Call, Os, Trace, Outcome, ok, err, panic, M, resume, ignore, after}
use winsvc.Mgr.Manager.{Mgr, Service, connect, disconnect, open_service}
use winsvc.Mgr.Control
use winsvc.Svc.Types.{Status}
use winsvc.Example.Manage.{
  Polled, reached, sleeping, explained, with_service, poll, send_and_poll, control_service,
}

-- The state that a service reported last, in an answer to a control or to a query.
abbrev pub last_state : Trace → Option ℕ
last_state [] = none
last_state ((Call.control_service service control, r) ∷ t) = some r.status.current_state
last_state ((Call.query_service_status service, r) ∷ t) = some r.status.current_state
last_state (_ ∷ t) = last_state t

-- How the loop ends: in the state it waits for, as Windows reported it, or with an error, and
-- asleep only while the time is not over.
abbrev pub EndsPolled : (to : ℕ) → List Bool → Outcome Polled × Trace → Type 0
EndsPolled to clock (ok reached, t) = last_state t ≡ some to
EndsPolled to clock (ok sleeping, t) = All (λ late. late ≡ false) clock
EndsPolled to clock (err e, t) = Unit
EndsPolled to clock (panic, t) = ⊥

EndsPolled-later :
    (to : ℕ) (clock : List Bool) (x : Outcome Polled × Trace)
    → EndsPolled to clock x
    → EndsPolled to (false ∷ clock) x
EndsPolled-later to clock (ok reached, t) h = h
EndsPolled-later to clock (ok sleeping, t) h = (refl, h)
EndsPolled-later to clock (err e, t) h = tt
EndsPolled-later to clock (panic, t) h = h

-- Closing a handle changes nothing of it.
EndsPolled-close :
    (to : ℕ) (clock : List Bool) (x : Outcome Polled × Trace) (handle : ℕ) (os : Os)
    → EndsPolled to clock x
    → EndsPolled to clock (after x (ignore (Procs.close_service_handle handle)) os)
unfolding Procs.close_service_handle
EndsPolled-close to clock (ok reached, t) handle os h = ground arith
EndsPolled-close to clock (ok sleeping, t) handle os h = h
EndsPolled-close to clock (err e, t) handle os h = tt
EndsPolled-close to clock (panic, t) handle os h = h

-- After a status that Windows reported.
poll-EndsPolled :
    (s : Service) (to : ℕ) (clock : List Bool) (status : Status) (os : Os) (t : Trace)
    → last_state t ≡ some status.state
    → EndsPolled to clock (poll s to clock status os t)
unfolding poll Control.query
poll-EndsPolled s to [] status os t h = ground arith
poll-EndsPolled s to (true ∷ clock) status os t h = ground arith
poll-EndsPolled s to (false ∷ clock) status os t h =
    let asked = Call.query_service_status s.handle in
    let t' = (asked, os t asked) ∷ t in
    let now = Control.status_of (os t asked).status in
    ground (
      arith,
      EndsPolled-later to clock (poll s to clock now os t')
          (poll-EndsPolled s to clock now os t' refl),
    )

send_and_poll-EndsPolled :
    (c to : ℕ) (clock : List Bool) (s : Service) (os : Os) (t : Trace)
    → EndsPolled to clock (send_and_poll c to clock s os t)
unfolding send_and_poll Control.control
send_and_poll-EndsPolled c to clock s os t =
    let asked = Call.control_service s.handle c in
    let t' = (asked, os t asked) ∷ t in
    ground (arith, poll-EndsPolled s to clock (Control.status_of (os t asked).status) os t' refl)

resume-EndsPolled :
    {A : Type 0} (to : ℕ) (clock : List Bool) (x : Outcome A × Trace) (f : A → M Polled) (os : Os)
    → x.0 ≢ panic
    → ((a : A) (t : Trace) → EndsPolled to clock (f a os t))
    → EndsPolled to clock (resume x f os)
resume-EndsPolled to clock (ok a, t) f os no_panic ends = ends a t
resume-EndsPolled to clock (err e, t) f os no_panic ends = tt
resume-EndsPolled to clock (panic, t) f os no_panic ends = absurd (no_panic refl)

open_service_returns :
    (text name : GoString) (m : Mgr) (os : Os) (t : Trace)
    → has_nul name ≡ false
    → (explained text (open_service m name) os t).0 ≢ panic
unfolding open_service
open_service_returns text name m os t n = ground arith

connect_returns : (os : Os) (t : Trace) → (connect os t).0 ≢ panic
unfolding connect
connect_returns os t = ground arith

-- For a name without NUL controlService does not panic; it returns without an error only when the
-- service reported the wanted state in its latest answer, and still sleeps only where the
-- time was not over at any look at the clock.
pub control_service-EndsPolled :
    (name : GoString) (c to : ℕ) (clock : List Bool) (os : Os) (t : Trace)
    → has_nul name ≡ false
    → EndsPolled to clock (control_service name c to clock os t)
unfolding control_service with_service disconnect Control.close
control_service-EndsPolled name c to clock os t n =
    resume-EndsPolled to clock (connect os t) _ os (connect_returns os t) (λ m t'.
      EndsPolled-close to clock _ m.handle os (
        resume-EndsPolled to clock (explained _ (open_service m name) os t') _ os
          (open_service_returns _ name m os t' n)
          (λ s t''.
            EndsPolled-close to clock _ s.handle os
              (send_and_poll-EndsPolled c to clock s os t''))))
