-- ===== src/EventLog/Source/Stored.antt =====
-- eventlog/install.go: a Windows that stores which event sources are registered, for sequences of
-- Install and Remove. How it compares the names of keys is an argument; the keys are those right
-- under the key of the log.
use winsvc.Prelude.{
  ◌≤◌, length, ℕ, ◌≡◌, ◌≢◌, not, ◌&&◌, Bool, true, false, none, some, List, [], ◌∷◌, ◌++◌, ◌==◌,
  if◌then◌else◌,
}
use winsvc.Unicode.{encode}
use winsvc.Winapi.Constants
use winsvc.Winapi.Types.{StringPtr, RegCreateKeyExArgs}
use winsvc.Winapi.System.{Call, Os, Trace}
use winsvc.EventLog.Source.{add_key_name}

abbrev pub log_path : List ℕ
log_path = encode add_key_name ++ 0 ∷ []

module _ (same : List ℕ → List ℕ → Bool) where
  abbrev pub names : StringPtr → List ℕ → Bool
  names none n = false
  names (some us) n = same us n

  -- The handle was last given for the key of the log, and has not been closed.
  abbrev pub is_log_key : ℕ → Trace → Bool
  is_log_key h [] = false
  is_log_key h ((Call.reg_open_key_ex parent path options desired, r) ∷ t) =
      if (r.r0 == 0) && (r.handle == h)
      then (parent == Constants.hkey_local_machine) && names path log_path
      else is_log_key h t
  is_log_key h ((Call.reg_create_key_ex args, r) ∷ t) =
      if (r.r0 == 0) && (r.handle == h) then false else is_log_key h t
  is_log_key h ((Call.reg_close_key k, r) ∷ t) = if k == h then false else is_log_key h t
  is_log_key h ((_, r) ∷ t) = is_log_key h t

  -- The log has a key of this name, where the argument says which it had at first.
  abbrev pub registered : (List ℕ → Bool) → List ℕ → Trace → Bool
  registered first n [] = first n
  registered first n ((Call.reg_create_key_ex args, r) ∷ t) =
      if (r.r0 == 0)
        && (not (r.dword == Constants.reg_opened_existing_key)
            && (is_log_key args.key t && names args.subkey n))
      then true
      else registered first n t
  registered first n ((Call.reg_delete_key k subkey, r) ∷ t) =
      if (r.r0 == 0) && (is_log_key k t && names subkey n) then false else registered first n t
  registered first n ((_, r) ∷ t) = registered first n t

-- The name of one key: at most 255 units, with the NUL behind them, none of which is a backslash.
abbrev pub lacks_backslash : List ℕ → Bool
lacks_backslash [] = true
lacks_backslash (u ∷ us) = not (u == 92) && lacks_backslash us

abbrev pub IsKeyName : List ℕ → Type 0
IsKeyName n = (2 ≤ length n) × (length n ≤ 256) × (lacks_backslash n ≡ true)

-- The documented behaviour of Windows, for a process with all rights to the log's key, whose
-- sources have no keys below them: that key opens, a key is created under it if it is not there and
-- opened if it is, and which of both it was is told; a key that is there is deleted, and one that is
-- not there is not.
pub record Registers (os : Os) (same : List ℕ → List ℕ → Bool) (first : List ℕ → Bool)
    : Type 0 where
  pub same-refl : (n : List ℕ) → same n n ≡ true
  pub opens :
      (t : Trace)
      → (os t (
          Call.reg_open_key_ex Constants.hkey_local_machine
            (some log_path)
            0
            Constants.key_all_access)).r0
        ≡ 0
  pub creates :
      (t : Trace) (args : RegCreateKeyExArgs) (n : List ℕ)
      → IsKeyName n
      → is_log_key same args.key t ≡ true
      → args.subkey ≡ some n
      → ((os t (Call.reg_create_key_ex args)).r0 ≡ 0)
        × (((os t (Call.reg_create_key_ex args)).dword == Constants.reg_opened_existing_key)
            ≡ registered same first n t)
  pub deletes :
      (t : Trace) (k : ℕ) (n : List ℕ)
      → IsKeyName n
      → is_log_key same k t ≡ true
      → registered same first n t ≡ true
      → (os t (Call.reg_delete_key k (some n))).r0 ≡ 0
  pub misses :
      (t : Trace) (k : ℕ) (n : List ℕ)
      → IsKeyName n
      → is_log_key same k t ≡ true
      → registered same first n t ≡ false
      → (os t (Call.reg_delete_key k (some n))).r0 ≢ 0
