-- ===== src/Registry/Values.antt =====
-- The values that reach the registry, read as Windows reads them.
use winsvc.Prelude.{
  ℕ, ◌+◌, ◌*◌, ◌%◌, ◌<◌, ◌≡◌, refl, false, some, List, [], ◌∷◌, ◌++◌, All, All-append, arith,
  length, length-append,
}
use winsvc.Unicode.{GoString, IsScalar, encode, encode_rune, has_nul}
use winsvc.Syscall.RoundTrip.{IsText}
use winsvc.Winapi.Types.{RegSetValueExArgs}
use winsvc.Winapi.Procs
use winsvc.Winapi.System.{Call, Os, Trace}
use winsvc.Registry.{Key, dword_bytes, unit_bytes, set_string_as}

-- Little-endian units.
abbrev pub read_units : List ℕ → List ℕ
read_units [] = []
read_units (a ∷ []) = []
read_units (a ∷ b ∷ bs) = (a + b * 256) ∷ read_units bs

abbrev pub read_dword : List ℕ → ℕ
read_dword (a ∷ b ∷ c ∷ d ∷ bs) = a + b * 256 + c * 65536 + d * 16777216
read_dword _ = 0

-- A uint32 is read back from its four bytes.
pub read_dword-dword_bytes : (v : ℕ) → v < 0x100000000 → read_dword (dword_bytes v) ≡ v
unfolding dword_bytes
read_dword-dword_bytes v h = omega arith

abbrev pub IsUnits : List ℕ → Type 0
IsUnits = All (λ u. u < 65536)

read_units-unit_bytes : (us : List ℕ) → IsUnits us → read_units (unit_bytes us) ≡ us
unfolding unit_bytes
read_units-unit_bytes [] h = refl
read_units-unit_bytes (u ∷ us) (k, h) = ground (arith, read_units-unit_bytes us h)

encode_rune-IsUnits : (r : ℕ) → IsScalar r → IsUnits (encode_rune r)
unfolding encode_rune
encode_rune-IsUnits r h = ground arith

encode-IsUnits : (s : GoString) → All IsScalar s → IsUnits (encode s)
unfolding encode
encode-IsUnits [] h = tt
encode-IsUnits (r ∷ s) (k, h) =
    All-append (λ u. u < 65536) (encode_rune r) (encode s) (encode_rune-IsUnits r k)
      (encode-IsUnits s h)

length-unit_bytes : (us : List ℕ) → length (unit_bytes us) ≡ length us * 2
unfolding unit_bytes
length-unit_bytes [] = refl
length-unit_bytes (u ∷ us) = omega (arith, length-unit_bytes us)

-- The latest call sets a value of this key to the text: its size is that of its bytes, and the
-- bytes, read back as units, are the text with its terminator.
abbrev pub SetsText : Key → (name value : GoString) → (valtype : ℕ) → Trace → Trace → Type 0
SetsText k name value valtype before ((Call.reg_set_value_ex args, r) ∷ t) =
    (t ≡ before)
    × (args.key ≡ k.handle)
    × (args.value_name ≡ some (encode name ++ 0 ∷ []))
    × (args.vtype ≡ valtype)
    × (args.bufsize ≡ length args.buf)
    × (read_units args.buf ≡ encode value ++ 0 ∷ [])
SetsText k name value valtype before _ = ⊥

encode_zero-IsUnits : (s : GoString) → All IsScalar s → IsUnits (encode s ++ 0 ∷ [])
encode_zero-IsUnits s h =
    All-append (λ u. u < 65536) (encode s) (0 ∷ []) (encode-IsUnits s h) (omega arith, tt)

reg_set_value_ex-trace :
    (args : RegSetValueExArgs) (os : Os) (t : Trace)
    → (Procs.reg_set_value_ex args os t).1
      ≡ (Call.reg_set_value_ex args, os t (Call.reg_set_value_ex args)) ∷ t
unfolding Procs.reg_set_value_ex
reg_set_value_ex-trace args os t = ground arith

-- setString writes one value, whose type is the one given, whose size counts the bytes of the
-- text and of its terminator, and whose bytes are those, for valid text without NUL of fewer than
-- 2^31 - 1 units under a name without NUL.
pub set_string_as-SetsText :
    (k : Key) (name value : GoString) (valtype : ℕ) (os : Os) (t : Trace)
    → has_nul name ≡ false
    → IsText 0x7ffffffe value
    → SetsText k name value valtype t (set_string_as k name value valtype os t).1
unfolding set_string_as
set_string_as-SetsText k name value valtype os t h (scalar, nul, short) =
    rw (nul, h)
      (rw reg_set_value_ex-trace (
        refl,
        refl,
        refl,
        refl,
        size,
        read_units-unit_bytes (encode value ++ 0 ∷ []) (encode_zero-IsUnits value scalar),
      ))
  where
    size :
        length (encode value ++ 0 ∷ []) * 2 % 0x100000000
        ≡ length (unit_bytes (encode value ++ 0 ∷ []))
    size =
        omega
          (arith, length-unit_bytes (encode value ++ 0 ∷ []), length-append (encode value) (0 ∷ []))
