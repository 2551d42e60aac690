-- ===== src/Svc/Security/Tokens.antt =====
-- The SIDs and the token that IsAnInteractiveSession holds while it runs.
use winsvc.Prelude.{ℕ, refl, List, [], ◌∷◌, arith}
use winsvc.Syscall.{open_current_process_token, close_token}
use winsvc.Winapi.Constants.{security_interactive_rid, security_service_rid}
use winsvc.Winapi.Procs.{free_sid}
use winsvc.Winapi.System.{Call, Os, Trace, ignore, deferred, ◌>>=◌}
use winsvc.Winapi.Types.{Tokengroups}
use winsvc.Winapi.Resources.{sid, token}
use winsvc.Winapi.Resources.Bracket.{
  KeepsLive, bind-KeepsLive, Acquires, Releases, bracket-KeepsLive,
}
use winsvc.Svc.Security.{
  get_token_groups, alloc_sid, search_groups, scan_groups, query_token, is_an_interactive_session,
}

-- The trace after one comparison.
abbrev pub asked : Os → Trace → ℕ → ℕ → Trace
asked os t a b = (Call.equal_sid a b, os t (Call.equal_sid a b)) ∷ t

search_groups-KeepsLive : (groups : List ℕ) (a b : ℕ) → KeepsLive (search_groups groups a b)
unfolding search_groups
search_groups-KeepsLive [] a b os t = refl
search_groups-KeepsLive (g ∷ groups) a b os t =
    ground (arith, search_groups-KeepsLive groups a b os (asked os (asked os t g a) g b))

scan_groups-KeepsLive : (gs : Tokengroups) (a b : ℕ) → KeepsLive (scan_groups gs a b)
unfolding scan_groups
scan_groups-KeepsLive gs a b os t = ground (arith, search_groups-KeepsLive gs.groups a b os t)

get_token_groups-KeepsLive : (t : ℕ) → KeepsLive (get_token_groups t)
unfolding get_token_groups
get_token_groups-KeepsLive tok os t = ground arith

open-Acquires : Acquires token open_current_process_token
unfolding open_current_process_token
open-Acquires os t = ground arith

close-Releases : Releases token (λ t. ignore (close_token t))
unfolding close_token
close-Releases a os t held h = ground arith

alloc_sid-Acquires : (rid : ℕ) → Acquires sid (alloc_sid rid)
unfolding alloc_sid
alloc_sid-Acquires rid os t = ground arith

free_sid-Releases : Releases sid (λ s. ignore (free_sid s))
unfolding free_sid
free_sid-Releases a os t held h = ground arith

query_token-KeepsLive : (a b : ℕ) → KeepsLive (query_token a b)
unfolding query_token
query_token-KeepsLive a b =
    bracket-KeepsLive token open_current_process_token (λ t. ignore (close_token t))
      (λ t. get_token_groups t >>= λ gs. scan_groups gs a b) open-Acquires close-Releases
      λ t.
        bind-KeepsLive (get_token_groups t) (λ gs. scan_groups gs a b)
          (get_token_groups-KeepsLive t) λ gs. scan_groups-KeepsLive gs a b

with_service_sid-KeepsLive :
    (a : ℕ)
    → KeepsLive
        (alloc_sid security_service_rid >>= λ b. deferred (ignore (free_sid b)) (query_token a b))
with_service_sid-KeepsLive a =
    bracket-KeepsLive sid (alloc_sid security_service_rid) (λ b. ignore (free_sid b))
      (query_token a) (alloc_sid-Acquires security_service_rid) free_sid-Releases
      (query_token-KeepsLive a)

-- However it ends, be it with a panic, IsAnInteractiveSession has freed both SIDs and closed the
-- token that it opened, and holds nothing new.
pub is_an_interactive_session-KeepsLive : KeepsLive is_an_interactive_session
unfolding is_an_interactive_session
is_an_interactive_session-KeepsLive =
    bracket-KeepsLive sid (alloc_sid security_interactive_rid) (λ a. ignore (free_sid a))
      (λ a.
        alloc_sid security_service_rid >>= λ b. deferred (ignore (free_sid b)) (query_token a b))
      (alloc_sid-Acquires security_interactive_rid) free_sid-Releases with_service_sid-KeepsLive
