-- ===== src/EventLog/Source/Sources.antt =====
-- Install and Remove as operations on the set of registered sources.
use winsvc.Prelude.{
  ℕ, ◌≡◌, ◌≢◌, refl, ◌||◌, ◌&&◌, not, Bool, true, false, List, [], ◌∷◌, ◌++◌, arith, ◌==◌,
  if◌then◌else◌,
}
use winsvc.Unicode.{GoString, codes, encode, has_nul}
use winsvc.Registry.{Key}
use winsvc.Winapi.Constants
use winsvc.Winapi.System.{Os, Trace, Outcome, Error, ok, err, errno, message}
use winsvc.EventLog.Source.{add_key_name, set_values, install, install_under, remove}
use winsvc.EventLog.Source.Written.{open_call, opened, create_args, creation, created}
use winsvc.EventLog.Source.Stored.{registered, IsKeyName, Registers, is_log_key, log_path}

abbrev pub key_name : GoString → List ℕ
key_name src = encode src ++ 0 ∷ []

-- The values are set, or one is refused.
abbrev pub Sets : Outcome (Unit {0}) → Type 0
Sets (ok u) = Unit
Sets (err (errno n)) = n ≢ 0
Sets _ = ⊥

abbrev pub IsRefused : Outcome (Unit {0}) → Type 0
IsRefused (err (errno n)) = n ≢ 0
IsRefused _ = ⊥

abbrev pub already_exists : GoString → Error
already_exists src =
    message (add_key_name ++ (codes "\\" ++ (src ++ codes " registry key already exists")))

module _ (os : Os) (same : List ℕ → List ℕ → Bool) (first : List ℕ → Bool)
    (os_registers : Registers os same first) where
  set_values-registered :
      (src msg_file : GoString) (use_expand_key : Bool) (events : ℕ) (k : Key) (existed : Bool)
      (t : Trace) (n : List ℕ)
      → registered same first n (set_values src msg_file use_expand_key events (k, existed) os t).1
        ≡ registered same first n t
  unfolding set_values
  set_values-registered src msg_file true events k false t n = ground arith
  set_values-registered src msg_file false events k false t n = ground arith
  set_values-registered src msg_file use_expand_key events k true t n = refl

  add_key_name_plain : has_nul add_key_name ≡ false
  unfolding has_nul
  add_key_name_plain = refl

  is_log_key-opened : (t : Trace) → is_log_key same (os t open_call).handle (opened os t) ≡ true
  is_log_key-opened t = ground (arith, os_registers.same-refl log_path, os_registers.opens t)

  set_values-Sets :
      (src msg_file : GoString) (use_expand_key : Bool) (events : ℕ) (k : Key) (t : Trace)
      → has_nul msg_file ≡ false
      → Sets (set_values src msg_file use_expand_key events (k, false) os t).0
  unfolding set_values has_nul
  set_values-Sets src msg_file true events k t nul = ground arith
  set_values-Sets src msg_file false events k t nul = ground arith

  pub install-registered :
      (src msg_file : GoString) (use_expand_key : Bool) (events : ℕ) (t : Trace) (n : List ℕ)
      → has_nul src ≡ false
      → IsKeyName (key_name src)
      → registered same first n (install src msg_file use_expand_key events os t).1 ≡ (
          if registered same first (key_name src) t
          then registered same first n t
          else same (key_name src) n || registered same first n t)
  unfolding install install_under
  install-registered src msg_file use_expand_key events t n nul name = ground (
    arith,
    add_key_name_plain,
    os_registers.opens t,
    is_log_key-opened t,
    os_registers.creates (opened os t) (create_args os t src) (key_name src) name
        (is_log_key-opened t) refl,
    set_values-registered src msg_file use_expand_key events
        (record { handle = (creation os t src).handle })
        ((creation os t src).dword == Constants.reg_opened_existing_key) (created os t src) n,
  )

  pub remove-registered :
      (src : GoString) (t : Trace) (n : List ℕ)
      → has_nul src ≡ false
      → IsKeyName (key_name src)
      → registered same first n (remove src os t).1 ≡ (
          not (registered same first (key_name src) t && same (key_name src) n)
          && registered same first n t)
  unfolding remove
  remove-registered src t n nul name = ground (
    arith,
    add_key_name_plain,
    os_registers.opens t,
    is_log_key-opened t,
    os_registers.deletes (opened os t) (os t open_call).handle (key_name src) name,
    os_registers.misses (opened os t) (os t open_call).handle (key_name src) name,
  )

  pub install-Sets :
      (src msg_file : GoString) (use_expand_key : Bool) (events : ℕ) (t : Trace)
      → has_nul src ≡ false
      → IsKeyName (key_name src)
      → has_nul msg_file ≡ false
      → registered same first (key_name src) t ≡ false
      → Sets (install src msg_file use_expand_key events os t).0
  unfolding install install_under
  install-Sets src msg_file use_expand_key events t nul name nul' new = ground (
    arith,
    add_key_name_plain,
    os_registers.opens t,
    is_log_key-opened t,
    os_registers.creates (opened os t) (create_args os t src) (key_name src) name
        (is_log_key-opened t) refl,
    set_values-Sets src msg_file use_expand_key events
        (record { handle = (creation os t src).handle }) (created os t src) nul',
  )

  pub install_exists :
      (src msg_file : GoString) (use_expand_key : Bool) (events : ℕ) (t : Trace)
      → has_nul src ≡ false
      → IsKeyName (key_name src)
      → registered same first (key_name src) t ≡ true
      → (install src msg_file use_expand_key events os t).0 ≡ err (already_exists src)
  unfolding install install_under set_values
  install_exists src msg_file use_expand_key events t nul name old = ground (
    arith,
    add_key_name_plain,
    os_registers.opens t,
    is_log_key-opened t,
    os_registers.creates (opened os t) (create_args os t src) (key_name src) name
        (is_log_key-opened t) refl,
  )

  pub remove_exists :
      (src : GoString) (t : Trace)
      → has_nul src ≡ false
      → IsKeyName (key_name src)
      → registered same first (key_name src) t ≡ true
      → (remove src os t).0 ≡ ok tt
  unfolding remove
  remove_exists src t nul name old = ground (
    arith,
    add_key_name_plain,
    os_registers.opens t,
    is_log_key-opened t,
    os_registers.deletes (opened os t) (os t open_call).handle (key_name src) name,
  )

  pub remove_misses :
      (src : GoString) (t : Trace)
      → has_nul src ≡ false
      → IsKeyName (key_name src)
      → registered same first (key_name src) t ≡ false
      → IsRefused (remove src os t).0
  unfolding remove
  remove_misses src t nul name new = ground (
    arith,
    add_key_name_plain,
    os_registers.opens t,
    is_log_key-opened t,
    os_registers.misses (opened os t) (os t open_call).handle (key_name src) name,
  )
