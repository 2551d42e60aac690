-- ===== src/Svc/Security.antt =====
-- svc/security.go: whether the process runs in an interactive session.
pub mod Tokens
pub mod Session
use winsvc.Prelude.{ℕ, suc, Bool, true, false, List, [], ◌∷◌, length, ltb, ◌==◌, if◌then◌else◌}
use winsvc.Syscall
use winsvc.Winapi.Constants
use winsvc.Winapi.Procs
use winsvc.Winapi.Types.{Tokengroups}
use winsvc.Winapi.System.{
  Reply, Error, errno, message, wrapped, M, return, fail, panics, ◌>>=◌, Attempt, returned, failed,
  ignore, deferred,
}

-- The buffer that the call filled, read as the groups of a token.
unfoldable pub get_info : (t class init_size : ℕ) → M Tokengroups
unfolding Syscall.get_token_information Syscall.query_grown
get_info t class init_size = do
  r ← Syscall.query_grown (Syscall.get_token_information t class) init_size
  return r.token_groups

unfoldable pub get_token_groups : ℕ → M Tokengroups
unfolding get_info
get_token_groups t = get_info t Constants.token_groups 50

unfoldable pub alloc_sid : ℕ → M ℕ
unfolding Procs.allocate_sid
alloc_sid sub_auth0 = Procs.allocate_sid (record {
  ident_auth = Constants.security_nt_authority;
  sub_auth = 1;
  sub_auths = sub_auth0 ∷ 0 ∷ 0 ∷ 0 ∷ 0 ∷ 0 ∷ 0 ∷ 0 ∷ [];
})

-- The loop over the groups of the token.
unfoldable pub search_groups : List ℕ → (inter_sid service_sid : ℕ) → M Bool
unfolding Procs.equal_sid
search_groups [] inter_sid service_sid = return false
search_groups (g ∷ groups) inter_sid service_sid = do
  is_inter ← Procs.equal_sid g inter_sid
  if is_inter then return true else (do
    is_service ← Procs.equal_sid g service_sid
    if is_service then return false else search_groups groups inter_sid service_sid)

-- The slice of an array of 2 << 20 groups.
unfoldable pub scan_groups : Tokengroups → (inter_sid service_sid : ℕ) → M Bool
scan_groups gs inter_sid service_sid =
    if ltb 0x200000 (length gs.groups)
    then panics
    else search_groups gs.groups inter_sid service_sid

unfoldable pub query_token : (inter_sid service_sid : ℕ) → M Bool
unfolding Syscall.open_current_process_token Syscall.close_token
query_token inter_sid service_sid = do
  t ← Syscall.open_current_process_token
  deferred (ignore (Syscall.close_token t))
      (do gs ← get_token_groups t; scan_groups gs inter_sid service_sid)

unfoldable pub is_an_interactive_session : M Bool
unfolding alloc_sid Procs.free_sid
is_an_interactive_session = do
  inter_sid ← alloc_sid Constants.security_interactive_rid
  deferred (ignore (Procs.free_sid inter_sid)) (do
    service_sid ← alloc_sid Constants.security_service_rid
    deferred (ignore (Procs.free_sid service_sid)) (query_token inter_sid service_sid))

unfoldable pub is_an_iinteractive_session : M Bool
is_an_iinteractive_session = is_an_interactive_session
