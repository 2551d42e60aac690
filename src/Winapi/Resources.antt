-- ===== src/Winapi/Resources.antt =====
-- Which of the handles, keys and SIDs that Windows handed out the process still holds, read off
-- the calls made so far.
pub mod Bracket
use winsvc.Prelude.{
  ℕ, Bool, true, false, not, Option, none, some, List, [], ◌∷◌, ◌==◌, if◌then◌else◌,
}
use winsvc.Winapi.System.{
  Call, Reply, Trace, create_event, register_event_source, deregister_event_source,
  reg_create_key_ex, allocate_sid, free_sid, open_sc_manager, close_service_handle, create_service,
  open_service, close_handle, open_current_process_token, close_token, reg_open_key_ex,
  reg_close_key,
}

pub data Resource : Type 0 where
  event : ℕ → Resource
  event_source : ℕ → Resource
  key : ℕ → Resource
  sid : ℕ → Resource
  token : ℕ → Resource
  sc_handle : ℕ → Resource

abbrev same : Resource → Resource → Bool
same (event a) (event b) = a == b
same (event_source a) (event_source b) = a == b
same (key a) (key b) = a == b
same (sid a) (sid b) = a == b
same (token a) (token b) = a == b
same (sc_handle a) (sc_handle b) = a == b
same _ _ = false

-- What a call hands out, where its answer is success.
abbrev acquired : Call → Reply → Option Resource
acquired (create_event attrs manual initial name) r = if r.r0 == 0 then none else some (event r.r0)
acquired (register_event_source server source) r =
    if r.r0 == 0 then none else some (event_source r.r0)
acquired (reg_create_key_ex args) r = if r.r0 == 0 then some (key r.handle) else none
acquired (allocate_sid args) r = if r.r0 == 0 then none else some (sid r.handle)
acquired (open_sc_manager machine database access) r =
    if r.r0 == 0 then none else some (sc_handle r.r0)
acquired (create_service args) r = if r.r0 == 0 then none else some (sc_handle r.r0)
acquired (open_service mgr name access) r = if r.r0 == 0 then none else some (sc_handle r.r0)
acquired open_current_process_token r = if r.r0 == 0 then none else some (token r.handle)
acquired (reg_open_key_ex parent path options desired) r =
    if r.r0 == 0 then some (key r.handle) else none
acquired _ r = none

-- What a call gives back. It counts also where the call answers with an error.
abbrev released : Call → Option Resource
released (deregister_event_source log) = some (event_source log)
released (free_sid s) = some (sid s)
released (close_service_handle handle) = some (sc_handle handle)
released (close_handle handle) = some (event handle)
released (close_token t) = some (token t)
released (reg_close_key k) = some (key k)
released _ = none

-- The latest one that is the same goes.
abbrev drop_first : Resource → List Resource → List Resource
drop_first x [] = []
drop_first x (y ∷ ys) = if same x y then ys else y ∷ drop_first x ys

abbrev given : Option Resource → List Resource → List Resource
given none held = held
given (some x) held = x ∷ held

abbrev taken : Option Resource → List Resource → List Resource
taken none held = held
taken (some x) held = drop_first x held

-- The resources that are held, the latest first.
abbrev pub live : Trace → List Resource
live [] = []
live ((c, r) ∷ t) = taken (released c) (given (acquired c r) (live t))
