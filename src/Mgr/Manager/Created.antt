-- ===== src/Mgr/Manager/Created.antt =====
-- mgr/mgr.go: what CreateService asks of Windows, and what it holds behind.
use winsvc.Prelude.{ℕ, ◌≡◌, ◌≢◌, ◌∙◌, false, not, ◌∷◌, is_empty, ◌==◌, if◌then◌else◌, arith, ◌⊎◌}
use winsvc.Unicode.{GoString, has_nul}
use winsvc.Winapi.Constants
use winsvc.Winapi.Procs
use winsvc.Winapi.Types.{CreateServiceArgs}
use winsvc.Winapi.System.{Call, Os, Trace, calls, Outcome, ok, err, panic, return, resume, ◌>>=◌}
use winsvc.Winapi.Resources.{sc_handle, live}
use winsvc.Mgr.Strings.{to_string_block}
use winsvc.Mgr.Strings.Pointers.{pointer, to_ptr_then}
use winsvc.Mgr.Config.{Config, update_description}
use winsvc.Mgr.Manager.{Mgr, Service, with_defaults, create_call, create_service}

-- The text of a configuration can be passed to Windows: no NUL in it.
abbrev pub IsPassable : Config → Type 0
IsPassable c =
    (has_nul c.binary_path_name ≡ false)
    × (has_nul c.load_order_group ≡ false)
    × (has_nul c.service_start_name ≡ false)
    × (has_nul c.display_name ≡ false)
    × (has_nul c.password ≡ false)
    × (has_nul c.description ≡ false)

-- The request for a service with a configuration.
abbrev pub creation : Mgr → (name : GoString) → Config → CreateServiceArgs
creation m name c = record {
  mgr = m.handle;
  service_name = pointer name;
  display_name = pointer c.display_name;
  access = Constants.service_all_access;
  srv_type = Constants.service_win32_own_process;
  start_type = c.start_type;
  err_ctl = c.error_control;
  path_name = pointer c.binary_path_name;
  load_order_group = pointer c.load_order_group;
  tag_id = 0;
  dependencies = to_string_block c.dependencies;
  service_start_name = pointer c.service_start_name;
  password = pointer c.password;
}

pub create_call-creation :
    (m : Mgr) (name exepath : GoString) (c : Config) (os : Os) (t : Trace)
    → has_nul name ≡ false
    → has_nul exepath ≡ false
    → IsPassable c
    → create_call m name exepath c os t
      ≡ Procs.create_service (creation m name (record c { binary_path_name = exepath })) os t
unfolding create_call
create_call-creation m name exepath c os t n x (path, group, account, display, password, desc) =
    to_ptr_then os t name _ n
    ∙ to_ptr_then os t c.display_name _ display
    ∙ to_ptr_then os t exepath _ x
    ∙ to_ptr_then os t c.load_order_group _ group
    ∙ to_ptr_then os t c.service_start_name _ account
    ∙ to_ptr_then os t c.password _ password

-- The configuration that is asked for: manual start and normal error control where the number is
-- 0, and the path given apart.
abbrev pub requested : (exepath : GoString) → Config → Config
requested exepath c = record c {
  start_type = if c.start_type == 0 then Constants.service_demand_start else c.start_type;
  error_control = if c.error_control == 0 then Constants.service_error_normal else c.error_control;
  binary_path_name = exepath;
}

abbrev creating : Mgr → (name exepath : GoString) → Config → Call
creating m name exepath c = Call.create_service (creation m name (requested exepath c))

abbrev describing : (handle : ℕ) → GoString → Call
describing h desc =
    Call.change_service_config2 h Constants.service_config_description
      (record { description = pointer desc })

-- How CreateService ends from a trace on.
module _ (m : Mgr) (name exepath : GoString) (c : Config) (t : Trace) where
  abbrev pub EndsCreated : Outcome Service × Trace → Type 0
  EndsCreated (ok s, t') =
      (s.name ≡ name)
      × (s.handle ≢ 0)
      × (live t' ≡ sc_handle s.handle ∷ live t)
      × (calls t' ≡ (
          if is_empty c.description
          then creating m name exepath c ∷ calls t
          else describing s.handle c.description ∷ creating m name exepath c ∷ calls t))
  EndsCreated (err e, t') =
      ((live t' ≡ live t) × (calls t' ≡ creating m name exepath c ∷ calls t))
      ⊎ ((h : ℕ) × (h ≢ 0)
          × (live t' ≡ sc_handle h ∷ live t)
          × (calls t' ≡ describing h c.description ∷ creating m name exepath c ∷ calls t))
  EndsCreated (panic, t') = ⊥

update_description-describing :
    (h : ℕ) (desc : GoString) (os : Os) (t : Trace)
    → has_nul desc ≡ false
    → update_description h desc os t
      ≡ Procs.change_service_config2 h Constants.service_config_description
          (record { description = pointer desc })
          os
          t
unfolding update_description
update_description-describing h desc os t n = to_ptr_then os t desc _ n

-- Behind the creation.
described-EndsCreated :
    (m : Mgr) (name exepath : GoString) (c : Config) (os : Os) (t : Trace)
    → has_nul c.description ≡ false
    → EndsCreated m name exepath c t (
        resume
          (Procs.create_service (creation m name (requested exepath c)) os t)
          (λ h. do
            _ ←
                (if not (is_empty c.description)
                  then update_description h c.description
                  else return tt)
            return (record { name = name; handle = h }))
          os)
unfolding Procs.create_service Procs.change_service_config2
described-EndsCreated m name exepath c os t n =
    let request = creating m name exepath c in
    let reply = os t request in
    ground (arith, update_description-describing reply.r0 c.description os ((request, reply) ∷ t) n)

-- For text without NUL CreateService asks for the service, with a manual start and the normal
-- error control in place of 0 and the path given apart, and then for its description if there
-- is one; when it returns a service it holds the new handle only, and when it fails it either
-- made the first call alone and holds nothing new, or it made both and still holds the handle.
pub create_service-EndsCreated :
    (m : Mgr) (name exepath : GoString) (c : Config) (os : Os) (t : Trace)
    → has_nul name ≡ false
    → has_nul exepath ≡ false
    → IsPassable c
    → EndsCreated m name exepath c t (create_service m name exepath c os t)
unfolding create_service with_defaults
create_service-EndsCreated m name exepath c os t n x
      (path, group, account, display, password, desc) =
    rw
      (create_call-creation m name exepath (requested exepath c) os t n x
        (x, group, account, display, password, desc))
      (described-EndsCreated m name exepath c os t desc)
