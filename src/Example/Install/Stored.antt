-- ===== src/Example/Install/Stored.antt =====
-- example/install.go: a Windows that stores which services are installed. How it folds names, in
-- letter case, is an argument; a service that is marked for deletion is not counted.
use winsvc.Prelude.{
  ℕ, ◌≡◌, ◌&&◌, not, Bool, true, false, none, some, List, [], ◌∷◌, ◌++◌, ◌==◌, if◌then◌else◌,
}
use winsvc.Unicode.{GoString, encode, same_text}
use winsvc.Winapi.Types.{StringPtr, CreateServiceArgs}
use winsvc.Winapi.System.{Call, Os, Trace}

module _ (fold : List ℕ → List ℕ) where
  abbrev pub service_key : GoString → List ℕ
  service_key name = fold (encode name ++ 0 ∷ [])

  abbrev names : StringPtr → List ℕ → Bool
  names none n = false
  names (some us) n = same_text (fold us) n

  -- The handle was last given for the service of this name.
  abbrev pub is_service : ℕ → List ℕ → Trace → Bool
  is_service h n [] = false
  is_service h n ((Call.open_sc_manager machine database access, r) ∷ t) =
      if not (r.r0 == 0) && (r.r0 == h) then false else is_service h n t
  is_service h n ((Call.create_service args, r) ∷ t) =
      if not (r.r0 == 0) && (r.r0 == h) then names args.service_name n else is_service h n t
  is_service h n ((Call.open_service mgr name access, r) ∷ t) =
      if not (r.r0 == 0) && (r.r0 == h) then names name n else is_service h n t
  is_service h n ((_, r) ∷ t) = is_service h n t

  -- There is a service of this name, where the argument says which there were at first.
  abbrev pub installed : (List ℕ → Bool) → List ℕ → Trace → Bool
  installed first n [] = first n
  installed first n ((Call.create_service args, r) ∷ t) =
      if not (r.r0 == 0) && names args.service_name n then true else installed first n t
  installed first n ((Call.delete_service h, r) ∷ t) =
      if not (r.r0 == 0) && is_service h n t then false else installed first n t
  installed first n ((_, r) ∷ t) = installed first n t

-- The last DeleteService was refused.
abbrev pub delete_refused : Trace → Bool
delete_refused [] = false
delete_refused ((Call.delete_service h, r) ∷ t) = r.r0 == 0
delete_refused ((_, r) ∷ t) = delete_refused t

-- The documented behaviour of Windows: CreateService fails under a name that is taken.
pub record Manages (os : Os) (fold : List ℕ → List ℕ) (first : List ℕ → Bool) : Type 0 where
  pub taken :
      (t : Trace) (args : CreateServiceArgs) (name : List ℕ)
      → args.service_name ≡ some name
      → installed fold first (fold name) t ≡ true
      → (os t (Call.create_service args)).r0 ≡ 0
