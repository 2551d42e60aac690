-- ===== src/Syscall/RoundTrip.antt =====
-- Text that is passed as 0-terminated units comes back, if it fits what the reader looks at.
use winsvc.Prelude.{
  ℕ, zero, suc, ◌≤◌, ◌≡◌, refl, false, some, List, [], ◌∷◌, ◌++◌, All, length, arith,
}
use winsvc.Unicode.{GoString, IsScalar, encode, has_nul}
use winsvc.Unicode.RoundTrip.{NoZero, decode-encode, encode-NoZero}
use winsvc.Syscall.{units_before_zero, utf16_to_string}

pub units_before_zero-append :
    (n : ℕ) (us behind : List ℕ)
    → NoZero us
    → length us ≤ n
    → units_before_zero n (us ++ 0 ∷ behind) ≡ some us
unfolding units_before_zero
units_before_zero-append zero [] behind h k = refl
units_before_zero-append zero (u ∷ us) behind h k = elim k [ ]
units_before_zero-append (suc n) [] behind h k = refl
units_before_zero-append (suc n) (u ∷ us) behind (p, h) k =
    ground (arith, units_before_zero-append n us behind h)

-- It is valid text without NUL, of n units at most.
abbrev pub IsText : ℕ → GoString → Type 0
IsText n s = All IsScalar s × (has_nul s ≡ false) × (length (encode s) ≤ n)

-- syscall.UTF16ToString undoes StringToUTF16, whatever stands behind the terminator.
pub utf16_to_string-encode :
    (n : ℕ) (s : GoString) (behind : List ℕ)
    → IsText n s
    → utf16_to_string n (encode s ++ 0 ∷ behind) ≡ some s
unfolding utf16_to_string
utf16_to_string-encode n s behind (scalar, nul, short) = ground (
  arith,
  units_before_zero-append n (encode s) behind (encode-NoZero s nul) short,
  decode-encode s scalar,
)
