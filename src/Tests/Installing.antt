-- ===== src/Tests/Installing.antt =====
-- A Windows that stores services, and refuses to write to the registry.
use winsvc.Prelude.{
  ℕ, List, ◌≡◌, refl, arith, Bool, false, none, some, [], ◌+◌, length, if◌then◌else◌,
}
use winsvc.Unicode.{codes, encode, encode_rune, has_nul, same_text}
use winsvc.Winapi.Types.{StringPtr}
use winsvc.Winapi.System.{Call, Os, Trace, err, errno, returned, wrapped}
use winsvc.Mgr.Manager.{create_call, with_defaults}
use winsvc.Mgr.Strings.{to_ptr}
use winsvc.EventLog.Source.{install, set_values}
use winsvc.Example.Install.{exe_path, install_service}
use winsvc.Example.Install.Stored.{service_key, installed, Manages}
use winsvc.Example.Install.Rollback.{EndsAtomic}
use winsvc.Example.Install.Atomic.{install_service-EndsAtomic}
use winsvc.Tests.Data.{reply}
use winsvc.Tests.Example.{files}

abbrev as_given : List ℕ → List ℕ
as_given n = n

-- The service "old" is installed at first.
abbrev old_services : List ℕ → Bool
old_services n = same_text (service_key as_given (codes "old")) n

abbrev has : StringPtr → Trace → Bool
has none t = false
has (some n) t = installed as_given old_services n t

abbrev manager : Os
manager t (Call.open_sc_manager machine database access) = reply (100 + length t) 0 0 0
manager t (Call.open_service m name access) =
    if has name t then reply (100 + length t) 0 0 0 else reply 0 1060 0 0
manager t (Call.create_service args) =
    if has args.service_name t then reply 0 1073 0 0 else reply (100 + length t) 0 0 0
manager t (Call.delete_service h) = reply 1 0 0 0
manager t (Call.reg_open_key_ex parent path options desired) = reply 0 0 (100 + length t) 0
manager t (Call.reg_create_key_ex args) = reply 0 0 (100 + length t) 1
manager t (Call.reg_set_value_ex args) = reply 5 0 0 0
manager t (Call.reg_delete_key k subkey) = reply 2 0 0 0
manager t _ = reply 1 0 0 0

manager-Manages : Manages manager as_given old_services
manager-Manages = record { taken = λ t args name e i. ground (arith, e, i) }

found_path : exe_path files [] ≡ returned (codes ".exe")
unfolding exe_path
found_path = refl

-- The registration fails, so the new service is taken away again.
install_service_test :
    (install_service files [] (codes "new") (codes "a service") manager []).0
    ≡ err (wrapped (codes "SetupEventLogSource() failed: ") (errno 5))
unfolding install_service has_nul same_text encode encode_rune create_call to_ptr with_defaults
    install set_values
install_service_test = refl

install_service-EndsAtomic_example :
    EndsAtomic as_given old_services
      (codes "new")
      (service_key as_given (codes "new"))
      (installed as_given old_services (service_key as_given (codes "new")) [])
      (installed as_given old_services (service_key as_given (codes "new")) [])
      (install_service files [] (codes "new") (codes "a service") manager [])
unfolding has_nul
install_service-EndsAtomic_example =
    install_service-EndsAtomic files [] (codes "new") (codes "a service") (codes ".exe") manager
      as_given old_services (service_key as_given (codes "new")) [] manager-Manages found_path refl
      refl refl refl
