-- ===== src/Mgr/Config/Stored.antt =====
-- mgr/config.go: a Windows that stores the configuration of one service, for UpdateConfig and
-- Config one behind the other. A nil pointer, and SERVICE_NO_CHANGE, leave a value as it is.
use winsvc.Prelude.{ℕ, ◌≡◌, ◌≢◌, ◌≤◌, ◌<◌, not, ◌&&◌, none, some, [], ◌∷◌, ◌==◌, if◌then◌else◌}
use winsvc.Winapi.Constants
use winsvc.Winapi.Constants.Controls.{service_no_change}
use winsvc.Winapi.Types.{StringPtr, QueryServiceConfig, ServiceDescription, ChangeServiceConfigArgs}
use winsvc.Winapi.System.{Call, Os, Trace}

abbrev pub keep : StringPtr → StringPtr → StringPtr
keep old none = old
keep old (some us) = some us

abbrev pub keep_number : ℕ → ℕ → ℕ
keep_number old n = if n == service_no_change then old else n

abbrev pub changed : QueryServiceConfig → ChangeServiceConfigArgs → QueryServiceConfig
changed q args = record {
  service_type = keep_number q.service_type args.service_type;
  start_type = keep_number q.start_type args.start_type;
  error_control = keep_number q.error_control args.error_control;
  binary_path_name = keep q.binary_path_name args.binary_path_name;
  load_order_group = keep q.load_order_group args.load_order_group;
  tag_id = q.tag_id;
  dependencies = keep q.dependencies args.dependencies;
  service_start_name = keep q.service_start_name args.service_start_name;
  display_name = keep q.display_name args.display_name;
}

-- What is stored of the service with this handle.
pub record Stored : Type 0 where
  pub config : QueryServiceConfig
  pub description : ServiceDescription

module _ (h : ℕ) where
  abbrev pub stored_by : Call → Stored → Stored
  stored_by (Call.change_service_config args) s =
      if args.service == h then record s { config = changed s.config args } else s
  stored_by (Call.change_service_config2 service info_level info) s =
      if service == h && (info_level == Constants.service_config_description)
      then record s {
        description = record { description = keep s.description.description info.description };
      }
      else s
  stored_by _ s = s

  -- What is stored after the calls of a trace that succeeded.
  abbrev pub stored : Stored → Trace → Stored
  stored first [] = first
  stored first ((c, r) ∷ t) =
      if not (r.r0 == 0) then stored_by c (stored first t) else stored first t

-- The documented behaviour of Windows: it accepts changes, answers a query with what is stored
-- where the buffer is large enough, and else says how large it has to be.
pub record Remembers (os : Os) (h : ℕ) (first : Stored) (size : QueryServiceConfig → ℕ)
    (size2 : ServiceDescription → ℕ) : Type 0 where
  pub accepts :
      (t : Trace) (args : ChangeServiceConfigArgs) → (os t (Call.change_service_config args)).r0 ≢ 0
  pub accepts2 :
      (t : Trace) (n : ℕ) (info : ServiceDescription)
      → (os t (Call.change_service_config2 h n info)).r0 ≢ 0
  pub tells :
      (t : Trace) (n : ℕ)
      → size (stored h first t).config ≤ n
      → ((os t (Call.query_service_config h n)).r0 ≢ 0)
        × ((os t (Call.query_service_config h n)).config ≡ (stored h first t).config)
  pub refuses :
      (t : Trace) (n : ℕ)
      → n < size (stored h first t).config
      → ((os t (Call.query_service_config h n)).r0 ≡ 0)
        × ((os t (Call.query_service_config h n)).e1 ≡ Constants.error_insufficient_buffer)
        × ((os t (Call.query_service_config h n)).dword ≡ size (stored h first t).config)
  pub tells2 :
      (t : Trace) (n : ℕ)
      → size2 (stored h first t).description ≤ n
      → ((os t (Call.query_service_config2 h Constants.service_config_description n)).r0 ≢ 0)
        × ((os t (Call.query_service_config2 h Constants.service_config_description n)).description
            ≡ (stored h first t).description)
  pub refuses2 :
      (t : Trace) (n : ℕ)
      → n < size2 (stored h first t).description
      → ((os t (Call.query_service_config2 h Constants.service_config_description n)).r0 ≡ 0)
        × ((os t (Call.query_service_config2 h Constants.service_config_description n)).e1
            ≡ Constants.error_insufficient_buffer)
        × ((os t (Call.query_service_config2 h Constants.service_config_description n)).dword
            ≡ size2 (stored h first t).description)
