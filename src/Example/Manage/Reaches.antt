-- ===== src/Example/Manage/Reaches.antt =====
-- example/manage.go: controlService gets what it waits for.
use winsvc.Prelude.{
  ℕ, ◌≡◌, ◌≢◌, ◌≤◌, ◌<◌, ◌+◌, Bool, false, none, some, List, [], ◌∷◌, ◌++◌, All, length, arith,
}
use winsvc.Unicode.{GoString, encode, has_nul}
use winsvc.Winapi.Constants.{sc_manager_all_access, service_all_access}
use winsvc.Winapi.Types.{StringPtr}
use winsvc.Winapi.System.{Call, Os, Trace, ok}
use winsvc.Mgr.Manager.{Service, connect, disconnect, open_service}
use winsvc.Mgr.Control
use winsvc.Svc.Types.{Status}
use winsvc.Example.Manage.{reached, with_service, poll, send_and_poll, control_service}

abbrev pub queries : Trace → ℕ
queries [] = 0
queries ((Call.query_service_status service, r) ∷ t) = queries t + 1
queries (_ ∷ t) = queries t

-- Windows grants every request, and after n queries each further one finds the service in the
-- state.
pub record Settles (os : Os) (to n : ℕ) : Type 0 where
  pub connects :
      (t : Trace) (machine database : StringPtr) (access : ℕ)
      → (os t (Call.open_sc_manager machine database access)).r0 ≢ 0
  pub opens :
      (t : Trace) (m : ℕ) (name : StringPtr) (access : ℕ)
      → (os t (Call.open_service m name access)).r0 ≢ 0
  pub controls : (t : Trace) (s c : ℕ) → (os t (Call.control_service s c)).r0 ≢ 0
  pub answers : (t : Trace) (s : ℕ) → (os t (Call.query_service_status s)).r0 ≢ 0
  pub settles :
      (t : Trace) (s : ℕ)
      → n ≤ queries t
      → (os t (Call.query_service_status s)).status.current_state ≡ to

module _ (os : Os) (to n : ℕ) (os_settles : Settles os to n) where
  poll_reaches :
      (s : Service) (clock : List Bool) (status : Status) (t : Trace)
      → All (λ late. late ≡ false) clock
      → n < length clock + queries t
      → (n < queries t → status.state ≡ to)
      → (poll s to clock status os t).0 ≡ ok reached
  unfolding poll
  poll_reaches s [] status t early enough settled = ground arith
  poll_reaches s (late ∷ clock) status t (now, early) enough settled =
      let asked = Call.query_service_status s.handle in
      let t' = (asked, os t asked) ∷ t in
      ground (
        arith,
        os_settles.answers t s.handle,
        poll_reaches s clock (Control.status_of (os t asked).status) t' early
            (omega (arith, enough)) (λ past. os_settles.settles t s.handle (omega (arith, past))),
      )

  send_and_poll_reaches :
      (c : ℕ) (clock : List Bool) (s : Service) (t : Trace)
      → All (λ late. late ≡ false) clock
      → n < length clock
      → queries t ≤ n
      → (send_and_poll c to clock s os t).0 ≡ ok reached
  unfolding send_and_poll Control.control
  send_and_poll_reaches c clock s t early enough fresh =
      let asked = Call.control_service s.handle c in
      let t' = (asked, os t asked) ∷ t in
      ground (
        arith,
        os_settles.controls t s.handle c,
        poll_reaches s clock (Control.status_of (os t asked).status) t' early
            (omega (arith, enough)) (λ past. absurd (omega (arith, past, fresh))),
      )

-- Where Windows grants every request, and after n queries each further one finds the service in
-- the state that is waited for, controlService returns without an error, for a name without NUL,
-- if it may look at the clock more than n times and the 10 seconds are not over at any.
pub control_service_reaches :
    (name : GoString) (c to n : ℕ) (clock : List Bool) (os : Os) (t : Trace)
    → Settles os to n
    → has_nul name ≡ false
    → All (λ late. late ≡ false) clock
    → n < length clock
    → queries t ≤ n
    → (control_service name c to clock os t).0 ≡ ok reached
unfolding control_service with_service connect disconnect open_service Control.close
control_service_reaches name c to n clock os t os_settles plain early enough fresh =
    let connecting = Call.open_sc_manager none none sc_manager_all_access in
    let t₁ = (connecting, os t connecting) ∷ t in
    let m = (os t connecting).r0 in
    let opening = Call.open_service m (some (encode name ++ 0 ∷ [])) service_all_access in
    let t₂ = (opening, os t₁ opening) ∷ t₁ in
    let s : Service = record { name = name; handle = (os t₁ opening).r0 } in
    ground (
      arith,
      os_settles.connects t none none sc_manager_all_access,
      os_settles.opens t₁ m (some (encode name ++ 0 ∷ [])) service_all_access,
      send_and_poll_reaches os to n os_settles c clock s t₂ early enough fresh,
    )
