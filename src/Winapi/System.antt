-- ===== src/Winapi/System.antt =====
-- Windows seen from Go: the calls that leave the process, what each may answer, and the code
-- that makes them, with Go's errors, panics and deferred calls.
use winsvc.Prelude.{ℕ, List, [], ◌∷◌}
use winsvc.Unicode.{GoString}
use winsvc.Winapi.Types.{
  StringPtr, ServiceStatus, ServiceTableEntry, QueryServiceConfig, ServiceDescription, Tokengroups,
  CreateServiceArgs, ChangeServiceConfigArgs, ReportEventArgs, RegCreateKeyExArgs,
  RegSetValueExArgs, AllocateSidArgs,
}

-- A call with what it is given. Pointers to other structures are addresses, and nil is 0.
pub data Call : Type 0 where
  -- kernel32.dll and advapi32.dll, through winapi
  create_event : (attrs manual_reset initial_state : ℕ) → (name : StringPtr) → Call
  set_event : (event : ℕ) → Call
  register_event_source : (server source : StringPtr) → Call
  deregister_event_source : (log : ℕ) → Call
  report_event : ReportEventArgs → Call
  reg_create_key_ex : RegCreateKeyExArgs → Call
  reg_delete_key : (key : ℕ) → (subkey : StringPtr) → Call
  reg_set_value_ex : RegSetValueExArgs → Call
  allocate_sid : AllocateSidArgs → Call
  free_sid : (sid : ℕ) → Call
  equal_sid : (sid₁ sid₂ : ℕ) → Call
  open_sc_manager : (machine database : StringPtr) → (access : ℕ) → Call
  close_service_handle : (handle : ℕ) → Call
  create_service : CreateServiceArgs → Call
  open_service : (mgr : ℕ) → (name : StringPtr) → (access : ℕ) → Call
  delete_service : (service : ℕ) → Call
  start_service : (service num_args : ℕ) → (args : List StringPtr) → Call
  query_service_status : (service : ℕ) → Call
  control_service : (service control : ℕ) → Call
  start_service_ctrl_dispatcher : List ServiceTableEntry → Call
  set_service_status : (service : ℕ) → ServiceStatus → Call
  change_service_config : ChangeServiceConfigArgs → Call
  query_service_config : (service buf_size : ℕ) → Call
  change_service_config2 : (service info_level : ℕ) → ServiceDescription → Call
  query_service_config2 : (service info_level buf_size : ℕ) → Call
  get_current_thread_id : Call
  -- Go's package syscall
  close_handle : (handle : ℕ) → Call
  wait_for_single_object : (handle milliseconds : ℕ) → Call
  get_token_information : (token class buf_size : ℕ) → Call
  open_current_process_token : Call
  close_token : (token : ℕ) → Call
  reg_open_key_ex : (parent : ℕ) → (path : StringPtr) → (options desired : ℕ) → Call
  reg_close_key : (key : ℕ) → Call

-- An answer: the result, GetLastError, and what is written through the pointers of the call.
pub record Reply : Type 0 where
  pub r0 : ℕ
  pub e1 : ℕ
  pub handle : ℕ
  pub dword : ℕ
  pub status : ServiceStatus
  pub config : QueryServiceConfig
  pub description : ServiceDescription
  pub token_groups : Tokengroups

-- The calls made so far with their answers, the latest first.
abbrev pub Trace : Type 0
Trace = List (Call × Reply)

-- The calls without their answers.
abbrev pub calls : Trace → List Call
calls [] = []
calls ((c, r) ∷ t) = c ∷ calls t

-- Windows answers in any way that depends on what came before.
abbrev pub Os : Type 0
Os = Trace → Call → Reply

-- A Go error: a syscall.Errno, errors.New, or fmt.Errorf around another error.
pub data Error : Type 0 where
  errno : ℕ → Error
  message : GoString → Error
  wrapped : GoString → Error → Error

-- How a Go function of type (T, error) ends.
pub data Outcome {ℓ} (A : Type ℓ) : Type ℓ where
  ok : A → Outcome A
  err : Error → Outcome A
  panic : Outcome A

abbrev pub M : Type 0 → Type 0
M A = Os → Trace → Outcome A × Trace

abbrev pub return : {A : Type 0} → A → M A
return a os t = (ok a, t)

abbrev pub fail : {A : Type 0} → Error → M A
fail e os t = (err e, t)

abbrev pub panics : {A : Type 0} → M A
panics os t = (panic, t)

abbrev pub resume : {A B : Type 0} → Outcome A × Trace → (A → M B) → Os → Outcome B × Trace
resume (ok a, t) f os = f a os t
resume (err e, t) f os = (err e, t)
resume (panic, t) f os = (panic, t)

-- `x, err := m; if err != nil { return err }; f(x)`
infixl 5 ◌>>=◌ ◌>>◌
abbrev pub ◌>>=◌ : {A B : Type 0} → M A → (A → M B) → M B
◌>>=◌ m f os t = resume (m os t) f os

abbrev pub ◌>>◌ : {A B : Type 0} → M A → M B → M B
◌>>◌ m k os t = resume (m os t) (λ _. k) os

-- `x, err := m`, where the caller looks at err itself.
pub data Attempt (A : Type 0) : Type 0 where
  returned : A → Attempt A
  failed : Error → Attempt A

abbrev pub settle : {A : Type 0} → Outcome A × Trace → Outcome (Attempt A) × Trace
settle (ok a, t) = (ok (returned a), t)
settle (err e, t) = (ok (failed e), t)
settle (panic, t) = (panic, t)

abbrev pub attempt : {A : Type 0} → M A → M (Attempt A)
attempt m os t = settle (m os t)

-- `m` as a statement: its error is dropped.
abbrev pub drop_error : {A : Type 0} → Outcome A × Trace → Outcome (Unit {0}) × Trace
drop_error (ok a, t) = (ok tt, t)
drop_error (err e, t) = (ok tt, t)
drop_error (panic, t) = (panic, t)

abbrev pub ignore : {A : Type 0} → M A → M (Unit {0})
ignore m os t = drop_error (m os t)

-- `defer d` in front of the body `m`: it runs however the body ends. The deferred calls of this
-- repository return, so the body's outcome stands.
abbrev pub after : {A : Type 0} → Outcome A × Trace → M (Unit {0}) → Os → Outcome A × Trace
after (r, t) d os = (r, (d os t).1)

abbrev pub deferred : {A : Type 0} → M (Unit {0}) → M A → M A
deferred d m os t = after (m os t) d os

-- One call out of the process.
abbrev pub call : Call → M Reply
call c os t = (ok (os t c), (c, os t c) ∷ t)
