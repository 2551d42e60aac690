-- ===== src/Mgr/Config/Asked.antt =====
-- mgr/config.go: Config reads what is stored.
use winsvc.Prelude.{ℕ, ◌≡◌, ap, ◌∙◌, some, [], ◌∷◌, arith}
use winsvc.Syscall
use winsvc.Winapi.Constants
use winsvc.Winapi.Procs
use winsvc.Winapi.Types.{QueryServiceConfig, ServiceDescription}
use winsvc.Winapi.System.{Call, Reply, Os, Trace, Error, Outcome, ok, err, panic, M, resume}
use winsvc.Mgr.Strings.{to_string, to_string_slice}
use winsvc.Mgr.Config.{Config, config_of, query}
use winsvc.Mgr.Config.Stored.{Stored, stored, Remembers}

-- A configuration that is the text of what is stored. The password is not stored for reading.
abbrev pub IsTextOf : Stored → Config → Type 0
IsTextOf s c =
    (c.service_type ≡ s.config.service_type)
    × (c.start_type ≡ s.config.start_type)
    × (c.error_control ≡ s.config.error_control)
    × (to_string s.config.binary_path_name ≡ some c.binary_path_name)
    × (to_string s.config.load_order_group ≡ some c.load_order_group)
    × (c.tag_id ≡ s.config.tag_id)
    × (to_string_slice s.config.dependencies ≡ some c.dependencies)
    × (to_string s.config.service_start_name ≡ some c.service_start_name)
    × (to_string s.config.display_name ≡ some c.display_name)
    × (c.password ≡ [])
    × (to_string s.description.description ≡ some c.description)

config_of-IsTextOf :
    (s : Stored) (c : Config) (os : Os) (t : Trace)
    → IsTextOf s c
    → (config_of s.config s.description os t).0 ≡ ok c
unfolding config_of
config_of-IsTextOf s c os t text = ground arith

-- A success in front of a computation.
resume_ok :
    {A B : Type 0} (P : Outcome A × Trace → Type 0) (Q : Outcome B → Type 0) (x : Outcome A × Trace)
    (f : A → M B) (os : Os)
    → ((e : Error) (t : Trace) → P (err e, t) → ⊥)
    → ((t : Trace) → P (panic, t) → ⊥)
    → ((a : A) (t : Trace) → P (ok a, t) → Q (f a os t).0)
    → P x
    → Q (resume x f os).0
resume_ok P Q (ok a, t) f os no_err no_panic then_f told = then_f a t told
resume_ok P Q (err e, t) f os no_err no_panic then_f told = absurd (no_err e t told)
resume_ok P Q (panic, t) f os no_err no_panic then_f told = absurd (no_panic t told)

module _ (os : Os) (h : ℕ) (first : Stored) (size : QueryServiceConfig → ℕ)
    (size2 : ServiceDescription → ℕ) (remembers : Remembers os h first size size2) where
  abbrev Told : Trace → Outcome Reply × Trace → Type 0
  Told t (ok r, t') =
      (r.config ≡ (stored h first t).config) × (stored h first t' ≡ stored h first t)
  Told t (err e, t') = ⊥
  Told t (panic, t') = ⊥

  abbrev Told2 : Trace → Outcome Reply × Trace → Type 0
  Told2 t (ok r, t') = r.description ≡ (stored h first t).description
  Told2 t (err e, t') = ⊥
  Told2 t (panic, t') = ⊥

  query_config-Told :
      (t : Trace) → Told t (Syscall.query_grown (Procs.query_service_config h) 1024 os t)
  unfolding Syscall.query_grown Procs.query_service_config
  query_config-Told t =
      let asked = Call.query_service_config h 1024 in
      let t' = (asked, os t asked) ∷ t in
      ground (
        arith,
        remembers.tells t 1024,
        remembers.refuses t 1024,
        remembers.tells t' (os t asked).dword,
      )

  query_description-Told :
      (t : Trace)
      → Told2 t (
          Syscall.query_grown
            (Procs.query_service_config2 h Constants.service_config_description)
            1024
            os
            t)
  unfolding Syscall.query_grown Procs.query_service_config2
  query_description-Told t =
      let asked = Call.query_service_config2 h Constants.service_config_description 1024 in
      let t' = (asked, os t asked) ∷ t in
      ground (
        arith,
        remembers.tells2 t 1024,
        remembers.refuses2 t 1024,
        remembers.tells2 t' (os t asked).dword,
      )

  -- Config returns the text of what is stored.
  pub query-IsTextOf :
      (t : Trace) (c : Config) → IsTextOf (stored h first t) c → (query h os t).0 ≡ ok c
  unfolding query
  query-IsTextOf t c text =
      resume_ok (Told t) (λ x. x ≡ ok c) _ _ os (λ e t' v. v) (λ t' v. v)
        (λ r t' told.
          resume_ok (Told2 t') (λ x. x ≡ ok c) _ _ os (λ e t' v. v) (λ t' v. v)
            (λ r2 t'' told2.
              ap (λ q. (config_of q r2.description os t'').0) told.0
              ∙ ap (λ d. (config_of (stored h first t).config d os t'').0)
                  (told2 ∙ ap (λ x. x.description) told.1)
              ∙ config_of-IsTextOf (stored h first t) c os t'' text)
            (query_description-Told t'))
        (query_config-Told t)
