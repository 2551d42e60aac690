-- ===== src/Tests/Mgr.antt =====
-- The package mgr at concrete data.
use winsvc.Prelude.{ℕ, ◌≡◌, refl, none, [], ◌∷◌, arith, ltb, if◌then◌else◌}
use winsvc.Unicode.{codes, encode, encode_rune, has_nul}
use winsvc.Winapi.Constants
use winsvc.Winapi.System.{Call, Os, ok, ◌>>=◌}
use winsvc.Winapi.Types.{QueryServiceConfig, ServiceDescription}
use winsvc.Mgr.Config.{Config, query, update}
use winsvc.Mgr.Config.Stored.{Stored, stored, Remembers}
use winsvc.Mgr.Config.Updated.{merged, query-update}
use winsvc.Mgr.Manager.{create_service}
use winsvc.Mgr.Manager.Created.{EndsCreated, create_service-EndsCreated}
use winsvc.Mgr.Strings.{join_strings, to_string, to_string_slice}
use winsvc.Tests.Data.{blank_config, reply, generous}

-- A service that is stored with an automatic start.
abbrev first : Stored
first = record { config = blank_config; description = record { description = none } }

abbrev small_size : QueryServiceConfig → ℕ
small_size q = 600

-- More than the first buffer of Config.
abbrev large_size : ServiceDescription → ℕ
large_size d = 3000

-- It keeps the configuration of the service with the handle 9.
abbrev remembering : Os
remembering t (Call.query_service_config service n) =
    if ltb n 600
    then reply 0 Constants.error_insufficient_buffer 0 600
    else record (reply 1 0 0 0) { config = (stored 9 first t).config }
remembering t (Call.query_service_config2 service level n) =
    if ltb n 3000
    then reply 0 Constants.error_insufficient_buffer 0 3000
    else record (reply 1 0 0 0) { description = (stored 9 first t).description }
remembering t _ = reply 1 0 0 0

remembering-Remembers : Remembers remembering 9 first small_size large_size
remembering-Remembers = record {
  accepts = λ t args. ground arith;
  accepts2 = λ t n info. ground arith;
  tells = λ t n h. ground arith;
  refuses = λ t n h. ground arith;
  tells2 = λ t n h. ground arith;
  refuses2 = λ t n h. ground arith;
}

-- What Config returns at first.
abbrev old_config : Config
old_config = record {
  service_type = 16;
  start_type = 3;
  error_control = 1;
  binary_path_name = [];
  load_order_group = [];
  tag_id = 0;
  dependencies = [];
  service_start_name = [];
  display_name = [];
  password = [];
  description = [];
}

abbrev new_config : Config
new_config = record old_config {
  start_type = 2;
  binary_path_name = codes "C:\\x.exe";
  dependencies = codes "tcp" ∷ [] ∷ codes "rpc" ∷ [];
  password = codes "secret";
  description = codes "beeps";
}

query-update_example :
    ((update 9 new_config >>= λ _. query 9) remembering []).0 ≡ ok (merged old_config new_config)
unfolding has_nul encode encode_rune join_strings to_string to_string_slice
query-update_example =
    query-update remembering 9 first small_size large_size remembering-Remembers new_config
      old_config []
      (
        omega arith,
        omega arith,
        omega arith,
        (ground arith, refl, omega arith),
        (tt, refl, omega arith),
        (ground arith, (ground arith, (ground arith, tt))),
        omega arith,
        (tt, refl, omega arith),
        (tt, refl, omega arith),
        refl,
        (ground arith, refl, omega arith),
      )
      (refl, refl, refl, refl, refl, refl, refl, refl, refl, refl, refl)

create_service-EndsCreated_example :
    EndsCreated
      (record { handle = 3 })
      (codes "beeper")
      (codes "C:\\x.exe")
      new_config
      []
      (create_service
        (record { handle = 3 })
        (codes "beeper")
        (codes "C:\\x.exe")
        new_config
        generous
        [])
unfolding has_nul
create_service-EndsCreated_example =
    create_service-EndsCreated (record { handle = 3 }) (codes "beeper") (codes "C:\\x.exe")
      new_config generous [] refl refl (refl, refl, refl, refl, refl, refl)
