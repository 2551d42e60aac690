-- ===== src/Tests/Clients.antt =====
-- The client packages at concrete data.
use winsvc.Prelude.{◌≡◌, refl, none, some, [], ◌∷◌, arith}
use winsvc.Unicode.{codes, encode, encode_rune, has_nul}
use winsvc.Winapi.Constants.{reg_sz}
use winsvc.Winapi.Types.{CreateServiceArgs}
use winsvc.Registry.{Key, dword_bytes, set_string_as}
use winsvc.Registry.Values.{read_dword, read_dword-dword_bytes, SetsText, set_string_as-SetsText}
use winsvc.Mgr.Strings.{to_string_block, to_string_slice}
use winsvc.Mgr.Strings.Dependencies.{to_string_slice-to_string_block}
use winsvc.Debug.Console.{itoa}
use winsvc.Tests.Data.{generous}

abbrev some_args : CreateServiceArgs
some_args = record {
  mgr = 1;
  service_name = none;
  display_name = none;
  access = 0;
  srv_type = 16;
  start_type = 3;
  err_ctl = 1;
  path_name = none;
  load_order_group = none;
  tag_id = 0;
  dependencies = none;
  service_start_name = none;
  password = none;
}

read_dword-dword_bytes_example : read_dword (dword_bytes 0x12345678) ≡ 0x12345678
read_dword-dword_bytes_example = read_dword-dword_bytes 0x12345678 (omega arith)

abbrev a_key : Key
a_key = record { handle = 5 }

set_string_as-SetsText_example :
    SetsText a_key
      (codes "Name")
      (codes "C:\\x.exe")
      reg_sz
      []
      (set_string_as a_key (codes "Name") (codes "C:\\x.exe") reg_sz generous []).1
unfolding has_nul encode encode_rune
set_string_as-SetsText_example =
    set_string_as-SetsText a_key (codes "Name") (codes "C:\\x.exe") reg_sz generous [] refl
      (omega arith, refl, omega arith)

to_string_slice-to_string_block_example :
    to_string_slice (to_string_block (codes "RpcSs" ∷ [] ∷ codes "Tcpip" ∷ []))
    ≡ some (codes "RpcSs" ∷ codes "Tcpip" ∷ [])
unfolding has_nul encode encode_rune
to_string_slice-to_string_block_example =
    to_string_slice-to_string_block (codes "RpcSs" ∷ [] ∷ codes "Tcpip" ∷ []) (ground arith)
      (omega arith)

itoa_test : itoa 4096 ≡ codes "4096"
unfolding itoa
itoa_test = refl
