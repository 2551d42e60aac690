-- ===== src/Mgr/Config.antt =====
-- mgr/config.go: the configuration of a service.
pub mod Stored
pub mod Asked
pub mod Updated
use winsvc.Prelude.{ℕ, Option, none, some, List, []}
use winsvc.Unicode.{GoString}
use winsvc.Syscall
use winsvc.Winapi.Constants
use winsvc.Winapi.Procs
use winsvc.Winapi.Types.{QueryServiceConfig, ServiceDescription}
use winsvc.Winapi.System.{M, return, panics, ◌>>=◌}
use winsvc.Mgr.Strings.{to_ptr, to_string, to_string_block, to_string_slice}

abbrev pub start_manual : ℕ
start_manual = Constants.service_demand_start

abbrev pub start_automatic : ℕ
start_automatic = Constants.service_auto_start

abbrev pub start_disabled : ℕ
start_disabled = Constants.service_disabled

abbrev pub error_critical : ℕ
error_critical = Constants.service_error_critical

abbrev pub error_ignore : ℕ
error_ignore = Constants.service_error_ignore

abbrev pub error_normal : ℕ
error_normal = Constants.service_error_normal

abbrev pub error_severe : ℕ
error_severe = Constants.service_error_severe

pub record Config : Type 0 where
  pub service_type : ℕ
  pub start_type : ℕ
  pub error_control : ℕ
  pub binary_path_name : GoString
  pub load_order_group : GoString
  pub tag_id : ℕ
  pub dependencies : List GoString
  pub service_start_name : GoString
  pub display_name : GoString
  pub password : GoString
  pub description : GoString

-- A read that leaves the memory behind its pointer is a fault.
abbrev pub readable : {A : Type 0} → Option A → M A
readable none = panics
readable (some a) = return a

-- The configuration that the two answers of Windows stand for.
unfoldable pub config_of : QueryServiceConfig → ServiceDescription → M Config
config_of p p2 = do
  binary_path_name ← readable (to_string p.binary_path_name)
  load_order_group ← readable (to_string p.load_order_group)
  dependencies ← readable (to_string_slice p.dependencies)
  service_start_name ← readable (to_string p.service_start_name)
  display_name ← readable (to_string p.display_name)
  description ← readable (to_string p2.description)
  return (record {
    service_type = p.service_type;
    start_type = p.start_type;
    error_control = p.error_control;
    binary_path_name = binary_path_name;
    load_order_group = load_order_group;
    tag_id = p.tag_id;
    dependencies = dependencies;
    service_start_name = service_start_name;
    display_name = display_name;
    password = [];
    description = description;
  })

-- Service.Config, of the service's handle.
unfoldable pub query : (handle : ℕ) → M Config
unfolding Procs.query_service_config Procs.query_service_config2 Syscall.query_grown config_of
query handle = do
  r ← Syscall.query_grown (Procs.query_service_config handle) 1024
  r2 ←
      Syscall.query_grown (Procs.query_service_config2 handle Constants.service_config_description)
        1024
  config_of r.config r2.description

unfoldable pub update_description : (handle : ℕ) → (desc : GoString) → M (Unit {0})
unfolding Procs.change_service_config2
update_description handle desc = do
  description ← to_ptr desc
  Procs.change_service_config2 handle Constants.service_config_description
      (record { description = description })

-- Service.UpdateConfig, of the service's handle.
unfoldable pub update : (handle : ℕ) → Config → M (Unit {0})
unfolding Procs.change_service_config
update handle c = do
  binary_path_name ← to_ptr c.binary_path_name
  load_order_group ← to_ptr c.load_order_group
  service_start_name ← to_ptr c.service_start_name
  password ← to_ptr c.password
  display_name ← to_ptr c.display_name
  _ ← Procs.change_service_config (record {
    service = handle;
    service_type = c.service_type;
    start_type = c.start_type;
    error_control = c.error_control;
    binary_path_name = binary_path_name;
    load_order_group = load_order_group;
    tag_id = 0;
    dependencies = to_string_block c.dependencies;
    service_start_name = service_start_name;
    password = password;
    display_name = display_name;
  })
  update_description handle c.description
