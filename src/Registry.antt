-- ===== src/Registry.antt =====
-- registry/registry.go: keys and values of the Windows registry.
pub mod Values
use winsvc.Prelude.{ℕ, ◌*◌, ◌/◌, ◌%◌, Bool, none, List, [], ◌∷◌, ◌++◌, length, ◌==◌}
use winsvc.Unicode.{GoString}
use winsvc.Syscall
use winsvc.Winapi.Constants
use winsvc.Winapi.Procs
use winsvc.Winapi.System.{M, return, ◌>>=◌}

pub record Key : Type 0 where
  pub handle : ℕ

unfoldable pub open_key : (parent : ℕ) → (path : GoString) → M Key
unfolding Syscall.string_to_utf16_ptr Syscall.reg_open_key_ex
open_key parent path = do
  p ← Syscall.string_to_utf16_ptr path
  h ← Syscall.reg_open_key_ex parent p 0 Constants.key_all_access
  return (record { handle = h })

unfoldable pub close : Key → M (Unit {0})
unfolding Syscall.reg_close_key
close k = Syscall.reg_close_key k.handle

-- The key, and whether it was there before.
unfoldable pub create_sub_key : Key → GoString → M (Key × Bool)
unfolding Syscall.string_to_utf16_ptr Procs.reg_create_key_ex
create_sub_key k name = do
  p ← Syscall.string_to_utf16_ptr name
  r ← Procs.reg_create_key_ex (record {
    key = k.handle;
    subkey = p;
    reserved = 0;
    class = none;
    options = Constants.reg_option_non_volatile;
    desired = Constants.key_all_access;
    sa = 0;
  })
  return (record { handle = r.0 }, r.1 == Constants.reg_opened_existing_key)

unfoldable pub delete_sub_key : Key → GoString → M (Unit {0})
unfolding Syscall.string_to_utf16_ptr Procs.reg_delete_key
delete_sub_key k name = do p ← Syscall.string_to_utf16_ptr name; Procs.reg_delete_key k.handle p

-- The bytes of a uint32 in memory.
unfoldable pub dword_bytes : ℕ → List ℕ
dword_bytes v = (v % 256) ∷ (v / 256 % 256) ∷ (v / 65536 % 256) ∷ (v / 16777216 % 256) ∷ []

-- The bytes of the units in memory.
unfoldable pub unit_bytes : List ℕ → List ℕ
unit_bytes [] = []
unit_bytes (u ∷ us) = (u % 256) ∷ (u / 256 % 256) ∷ unit_bytes us

unfoldable pub set_uint32 : Key → (name : GoString) → (value : ℕ) → M (Unit {0})
unfolding Syscall.string_to_utf16_ptr Procs.reg_set_value_ex dword_bytes
set_uint32 k name value = do
  p ← Syscall.string_to_utf16_ptr name
  Procs.reg_set_value_ex (record {
    key = k.handle;
    value_name = p;
    reserved = 0;
    vtype = Constants.reg_dword;
    buf = dword_bytes value;
    bufsize = 4;
  })

unfoldable pub set_string_as : Key → (name value : GoString) → (valtype : ℕ) → M (Unit {0})
unfolding Syscall.string_to_utf16 Syscall.string_to_utf16_ptr
set_string_as k name value valtype = do
  buf ← Syscall.string_to_utf16 value
  p ← Syscall.string_to_utf16_ptr name
  Procs.reg_set_value_ex (record {
    key = k.handle;
    value_name = p;
    reserved = 0;
    vtype = valtype;
    buf = unit_bytes buf;
    bufsize = length buf * 2 % 0x100000000;
  })

unfoldable pub set_string : Key → (name value : GoString) → M (Unit {0})
unfolding set_string_as Procs.reg_set_value_ex
set_string k name value = set_string_as k name value Constants.reg_sz

unfoldable pub set_string_expand : Key → (name value : GoString) → M (Unit {0})
unfolding set_string_as Procs.reg_set_value_ex
set_string_expand k name value = set_string_as k name value Constants.reg_expand_sz
