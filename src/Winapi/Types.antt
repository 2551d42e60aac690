-- ===== src/Winapi/Types.antt =====
-- winapi/service.go, winapi/security.go: the structures that cross the boundary to Windows, and
-- the arguments of the calls that take many. A pointer to text is a StringPtr; any other pointer is
-- an address, and nil is 0.
use winsvc.Prelude.{ℕ, Option, List}

-- A `*uint16`: nil, or the units that stand in memory from the address on.
abbrev pub StringPtr : Type 0
StringPtr = Option (List ℕ)

pub record ServiceStatus : Type 0 where
  pub service_type : ℕ
  pub current_state : ℕ
  pub controls_accepted : ℕ
  pub win32_exit_code : ℕ
  pub service_specific_exit_code : ℕ
  pub check_point : ℕ
  pub wait_hint : ℕ

pub record ServiceTableEntry : Type 0 where
  pub service_name : StringPtr
  pub service_proc : ℕ

pub record QueryServiceConfig : Type 0 where
  pub service_type : ℕ
  pub start_type : ℕ
  pub error_control : ℕ
  pub binary_path_name : StringPtr
  pub load_order_group : StringPtr
  pub tag_id : ℕ
  pub dependencies : StringPtr
  pub service_start_name : StringPtr
  pub display_name : StringPtr

pub record ServiceDescription : Type 0 where
  pub description : StringPtr

-- The group count is that of the list.
pub record Tokengroups : Type 0 where
  pub groups : List ℕ

pub record CreateServiceArgs : Type 0 where
  pub mgr : ℕ
  pub service_name : StringPtr
  pub display_name : StringPtr
  pub access : ℕ
  pub srv_type : ℕ
  pub start_type : ℕ
  pub err_ctl : ℕ
  pub path_name : StringPtr
  pub load_order_group : StringPtr
  pub tag_id : ℕ
  pub dependencies : StringPtr
  pub service_start_name : StringPtr
  pub password : StringPtr

pub record ChangeServiceConfigArgs : Type 0 where
  pub service : ℕ
  pub service_type : ℕ
  pub start_type : ℕ
  pub error_control : ℕ
  pub binary_path_name : StringPtr
  pub load_order_group : StringPtr
  pub tag_id : ℕ
  pub dependencies : StringPtr
  pub service_start_name : StringPtr
  pub password : StringPtr
  pub display_name : StringPtr

pub record ReportEventArgs : Type 0 where
  pub log : ℕ
  pub etype : ℕ
  pub category : ℕ
  pub event_id : ℕ
  pub usr_sid : ℕ
  pub num_strings : ℕ
  pub data_size : ℕ
  pub strings : List StringPtr
  pub raw_data : ℕ

pub record RegCreateKeyExArgs : Type 0 where
  pub key : ℕ
  pub subkey : StringPtr
  pub reserved : ℕ
  pub class : StringPtr
  pub options : ℕ
  pub desired : ℕ
  pub sa : ℕ

pub record RegSetValueExArgs : Type 0 where
  pub key : ℕ
  pub value_name : StringPtr
  pub reserved : ℕ
  pub vtype : ℕ
  pub buf : List ℕ
  pub bufsize : ℕ

pub record AllocateSidArgs : Type 0 where
  pub ident_auth : ℕ
  pub sub_auth : ℕ
  pub sub_auths : List ℕ
