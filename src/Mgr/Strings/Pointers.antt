-- ===== src/Mgr/Strings/Pointers.antt =====
-- mgr/mgr.go and mgr/config.go: toPtr and toString, one behind the other.
use winsvc.Prelude.{◌≡◌, refl, ap, false, none, some, [], ◌∷◌, ◌++◌, is_empty, if◌then◌else◌, arith}
use winsvc.Unicode.{GoString, encode, has_nul}
use winsvc.Syscall.{string_to_utf16_ptr}
use winsvc.Syscall.RoundTrip.{IsText, utf16_to_string-encode}
use winsvc.Winapi.Types.{StringPtr}
use winsvc.Winapi.System.{Os, Trace, ok, M, resume, ◌>>=◌}
use winsvc.Mgr.Strings.{to_ptr, to_string}

-- What Windows gets for a text: nil for the empty one, else its units with a 0 behind.
abbrev pub pointer : GoString → StringPtr
pointer s = if is_empty s then none else some (encode s ++ 0 ∷ [])

-- toPtr makes that pointer without a call of Windows.
pub to_ptr-pointer :
    (s : GoString) (os : Os) (t : Trace) → has_nul s ≡ false → to_ptr s os t ≡ (ok (pointer s), t)
unfolding to_ptr string_to_utf16_ptr
to_ptr-pointer s os t h = ground arith

-- Making a pointer in front of a computation.
pub to_ptr_then :
    {B : Type 0} (os : Os) (t : Trace) (s : GoString) (f : StringPtr → M B)
    → has_nul s ≡ false
    → (to_ptr s >>= f) os t ≡ f (pointer s) os t
to_ptr_then os t s f h = ap (λ x. resume x f os) (to_ptr-pointer s os t h)

-- A text of at most 4096 units that can be stored.
abbrev pub IsStored : GoString → Type 0
IsStored = IsText 4096

pub to_string-pointer : (s : GoString) → IsStored s → to_string (pointer s) ≡ some s
unfolding to_string
to_string-pointer [] h = refl
to_string-pointer (r ∷ s) h = utf16_to_string-encode 4096 (r ∷ s) [] h
