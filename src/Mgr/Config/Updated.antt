-- ===== src/Mgr/Config/Updated.antt =====
-- mgr/config.go: UpdateConfig, and Config behind it.
use winsvc.Prelude.{
  ℕ, ◌≤◌, ◌≡◌, ◌≢◌, refl, ap, ◌∙◌, false, some, List, [], ◌∷◌, All, is_empty, if◌then◌else◌, arith,
}
use winsvc.Unicode.{GoString, has_nul}
use winsvc.Winapi.Constants
use winsvc.Winapi.Constants.Controls.{service_no_change}
use winsvc.Winapi.Procs
use winsvc.Winapi.Types.{StringPtr, QueryServiceConfig, ServiceDescription, ChangeServiceConfigArgs}
use winsvc.Winapi.System.{Call, Os, Trace, ok, ◌>>=◌, resume}
use winsvc.Mgr.Strings.{to_string, to_string_block, to_string_slice}
use winsvc.Mgr.Strings.Pointers.{pointer, to_ptr_then, IsStored, to_string-pointer}
use winsvc.Mgr.Strings.Dependencies.{
  IsName, named, block_length, to_string_block-named, to_string_slice-to_string_block,
}
use winsvc.Mgr.Config.{Config, query, update, update_description}
use winsvc.Mgr.Config.Stored.{Stored, stored, Remembers, changed, keep}
use winsvc.Mgr.Config.Asked.{IsTextOf, query-IsTextOf}

-- It can be stored as it is: each text fits and has no NUL, and no number is the one that
-- Windows takes for no change.
abbrev pub IsStorable : Config → Type 0
IsStorable c =
    (c.service_type ≢ service_no_change)
    × (c.start_type ≢ service_no_change)
    × (c.error_control ≢ service_no_change)
    × IsStored c.binary_path_name
    × IsStored c.load_order_group
    × All IsName c.dependencies
    × (block_length c.dependencies ≤ 0x1000000)
    × IsStored c.service_start_name
    × IsStored c.display_name
    × (has_nul c.password ≡ false)
    × IsStored c.description

abbrev pub or_else : {A : Type 0} → List A → List A → List A
or_else old new = if is_empty new then old else new

-- The old configuration with the new one over it: the numbers, the texts that are not empty and
-- the dependencies that are not empty, if there are any.
abbrev pub merged : (old new : Config) → Config
merged old new = record {
  service_type = new.service_type;
  start_type = new.start_type;
  error_control = new.error_control;
  binary_path_name = or_else old.binary_path_name new.binary_path_name;
  load_order_group = or_else old.load_order_group new.load_order_group;
  tag_id = old.tag_id;
  dependencies = or_else old.dependencies (named new.dependencies);
  service_start_name = or_else old.service_start_name new.service_start_name;
  display_name = or_else old.display_name new.display_name;
  password = [];
  description = or_else old.description new.description;
}

to_string-keep :
    (old : StringPtr) (before s : GoString)
    → to_string old ≡ some before
    → IsStored s
    → to_string (keep old (pointer s)) ≡ some (or_else before s)
to_string-keep old before [] h k = h
to_string-keep old before (r ∷ s) h k = to_string-pointer (r ∷ s) k

to_string_slice-keep :
    (old : StringPtr) (before ss : List GoString)
    → to_string_slice old ≡ some before
    → All IsName ss
    → block_length ss ≤ 0x1000000
    → to_string_slice (keep old (to_string_block ss)) ≡ some (or_else before (named ss))
to_string_slice-keep old before ss h names short =
    ground (arith, to_string_block-named ss, to_string_slice-to_string_block ss names short)

abbrev change : (handle : ℕ) → Config → ChangeServiceConfigArgs
change h c = record {
  service = h;
  service_type = c.service_type;
  start_type = c.start_type;
  error_control = c.error_control;
  binary_path_name = pointer c.binary_path_name;
  load_order_group = pointer c.load_order_group;
  tag_id = 0;
  dependencies = to_string_block c.dependencies;
  service_start_name = pointer c.service_start_name;
  password = pointer c.password;
  display_name = pointer c.display_name;
}

module _ (os : Os) (h : ℕ) (first : Stored) (size : QueryServiceConfig → ℕ)
    (size2 : ServiceDescription → ℕ) (remembers : Remembers os h first size size2) where
  abbrev describing : GoString → Call
  describing desc =
      Call.change_service_config2 h Constants.service_config_description
        (record { description = pointer desc })

  -- The trace of UpdateConfig.
  abbrev behind : Config → Trace → Trace
  behind c t =
      let asked = Call.change_service_config (change h c) in
      let t' = (asked, os t asked) ∷ t in
      (describing c.description, os t' (describing c.description)) ∷ t'

  change_config-accepted :
      (args : ChangeServiceConfigArgs) (t : Trace)
      → Procs.change_service_config args os t
        ≡ (ok tt, (Call.change_service_config args, os t (Call.change_service_config args)) ∷ t)
  unfolding Procs.change_service_config
  change_config-accepted args t = ground (arith, remembers.accepts t args)

  update_description-accepted :
      (desc : GoString) (t : Trace)
      → has_nul desc ≡ false
      → update_description h desc os t ≡ (ok tt, (describing desc, os t (describing desc)) ∷ t)
  unfolding update_description Procs.change_service_config2
  update_description-accepted desc t n =
      to_ptr_then os t desc _ n
      ∙ ground (
        arith,
        remembers.accepts2 t Constants.service_config_description
            (record { description = pointer desc }),
      )

  update-behind : (c : Config) (t : Trace) → IsStorable c → update h c os t ≡ (ok tt, behind c t)
  unfolding update
  update-behind c t (_, _, _, path, group, _, _, account, display, password, desc) =
      to_ptr_then os t c.binary_path_name _ path.1
      ∙ to_ptr_then os t c.load_order_group _ group.1
      ∙ to_ptr_then os t c.service_start_name _ account.1
      ∙ to_ptr_then os t c.password _ password
      ∙ to_ptr_then os t c.display_name _ display.1
      ∙ ap (λ x. resume x (λ _. update_description h c.description) os)
          (change_config-accepted (change h c) t)
      ∙ update_description-accepted c.description _ desc.1

  abbrev stored_anew : Config → Stored → Stored
  stored_anew c s = record {
    config = changed s.config (change h c);
    description = record { description = keep s.description.description (pointer c.description) };
  }

  stored-behind :
      (c : Config) (t : Trace) → stored h first (behind c t) ≡ stored_anew c (stored h first t)
  stored-behind c t =
      let asked = Call.change_service_config (change h c) in
      ground (
        arith,
        remembers.accepts t (change h c),
        remembers.accepts2 ((asked, os t asked) ∷ t) Constants.service_config_description
            (record { description = pointer c.description }),
      )

  stored_anew-IsTextOf :
      (c old : Config) (s : Stored)
      → IsStorable c
      → IsTextOf s old
      → IsTextOf (stored_anew c s) (merged old c)
  stored_anew-IsTextOf c old s (n1, n2, n3, path, group, deps, short, account, display, _, desc)
        (_, _, _, path₀, group₀, tag₀, deps₀, account₀, display₀, _, desc₀) =
      (
        ground arith,
        ground arith,
        ground arith,
        to_string-keep _ _ _ path₀ path,
        to_string-keep _ _ _ group₀ group,
        tag₀,
        to_string_slice-keep _ _ _ deps₀ deps short,
        to_string-keep _ _ _ account₀ account,
        to_string-keep _ _ _ display₀ display,
        refl,
        to_string-keep _ _ _ desc₀ desc,
      )

  -- Over a Windows that stores the configuration of the service, accepts changes and answers
  -- queries as documented, Config behind UpdateConfig returns the numbers of the new
  -- configuration, its texts where they are not empty and the old ones where they are, its
  -- dependencies without the empty ones if there are any, the old tag, and no password, for
  -- texts of at most 4096 units without NUL and numbers other than SERVICE_NO_CHANGE, where
  -- the old configuration is readable.
  pub query-update :
      (c old : Config) (t : Trace)
      → IsStorable c
      → IsTextOf (stored h first t) old
      → ((update h c >>= λ _. query h) os t).0 ≡ ok (merged old c)
  query-update c old t s text =
      ap (λ x. (resume x (λ _. query h) os).0) (update-behind c t s)
      ∙ query-IsTextOf os h first size size2 remembers (behind c t) (merged old c)
          (rw (stored-behind c t) (stored_anew-IsTextOf c old (stored h first t) s text))
