-- ===== src/Winapi/Constants/Sids.antt =====
-- winapi/security.go: the authorities and relative ids that only callers may use. An authority is
-- the number of its six bytes.
use winsvc.Prelude.{ℕ}

abbrev pub security_null_sid_authority : ℕ
security_null_sid_authority = 0

abbrev pub security_world_sid_authority : ℕ
security_world_sid_authority = 1

abbrev pub security_local_sid_authority : ℕ
security_local_sid_authority = 2

abbrev pub security_creator_sid_authority : ℕ
security_creator_sid_authority = 3

abbrev pub security_non_unique_authority : ℕ
security_non_unique_authority = 4

abbrev pub security_mandatory_label_authority : ℕ
security_mandatory_label_authority = 16

abbrev pub security_null_rid : ℕ
security_null_rid = 0

abbrev pub security_world_rid : ℕ
security_world_rid = 0

abbrev pub security_local_rid : ℕ
security_local_rid = 0

abbrev pub security_creator_owner_rid : ℕ
security_creator_owner_rid = 0

abbrev pub security_creator_group_rid : ℕ
security_creator_group_rid = 1

abbrev pub security_dialup_rid : ℕ
security_dialup_rid = 1

abbrev pub security_network_rid : ℕ
security_network_rid = 2

abbrev pub security_batch_rid : ℕ
security_batch_rid = 3

abbrev pub security_logon_ids_rid : ℕ
security_logon_ids_rid = 5

abbrev pub security_local_system_rid : ℕ
security_local_system_rid = 18

abbrev pub security_builtin_domain_rid : ℕ
security_builtin_domain_rid = 32

abbrev pub security_principal_self_rid : ℕ
security_principal_self_rid = 10

abbrev pub security_creator_owner_server_rid : ℕ
security_creator_owner_server_rid = 0x2

abbrev pub security_creator_group_server_rid : ℕ
security_creator_group_server_rid = 0x3

abbrev pub security_logon_ids_rid_count : ℕ
security_logon_ids_rid_count = 0x3

abbrev pub security_anonymous_logon_rid : ℕ
security_anonymous_logon_rid = 0x7

abbrev pub security_proxy_rid : ℕ
security_proxy_rid = 0x8

abbrev pub security_enterprise_controllers_rid : ℕ
security_enterprise_controllers_rid = 0x9

abbrev pub security_server_logon_rid : ℕ
security_server_logon_rid = security_enterprise_controllers_rid

abbrev pub security_authenticated_user_rid : ℕ
security_authenticated_user_rid = 0xb

abbrev pub security_restricted_code_rid : ℕ
security_restricted_code_rid = 0xc

abbrev pub security_nt_non_unique_rid : ℕ
security_nt_non_unique_rid = 0x15
