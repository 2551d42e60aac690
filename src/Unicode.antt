-- ===== src/Unicode.antt =====
-- Go's text as this repository uses it: a string is the list of its code points, and package
-- unicode/utf16 and the conversions of package syscall turn it into 16-bit units and back.
pub mod RoundTrip
use Prim.Native.Char.{code}
use Prim.Native.String.{String}
use winsvc.Prelude.{
  ℕ, suc, ◌+◌, ◌-◌, ◌*◌, ◌/◌, ◌%◌, ◌≤◌, ◌<◌, ◌⊎◌, Bool, true, false, ◌&&◌, ◌||◌, List, [], ◌∷◌,
  ◌++◌, ltb, leb, ◌==◌, if◌then◌else◌,
}

abbrev pub GoString : Type 0
GoString = List ℕ

-- The code points that a valid UTF-8 string can hold: no surrogates.
abbrev pub IsScalar : ℕ → Type 0
IsScalar r = (r < 0xd800) ⊎ ((0xe000 ≤ r) × (r ≤ 0x10ffff))

abbrev pub replacement : ℕ
replacement = 0xfffd

-- One round of utf16.Encode.
unfoldable pub encode_rune : ℕ → List ℕ
encode_rune r =
    if ltb r 0xd800 || (leb 0xe000 r && ltb r 0x10000)
    then r ∷ []
    else if leb 0x10000 r && leb r 0x10ffff
    then (0xd800 + (r - 0x10000) / 1024) ∷ (0xdc00 + (r - 0x10000) % 1024) ∷ []
    else replacement ∷ []

unfoldable pub encode : GoString → List ℕ
encode [] = []
encode (r ∷ s) = encode_rune r ++ encode s

unfoldable pub is_high : ℕ → Bool
is_high u = leb 0xd800 u && ltb u 0xdc00

unfoldable pub is_low : ℕ → Bool
is_low u = leb 0xdc00 u && ltb u 0xe000

-- A unit that is not part of a surrogate pair.
unfoldable pub decode_unit : ℕ → ℕ
unfolding is_high is_low
decode_unit u = if is_high u || is_low u then replacement else u

unfoldable pub decode_pair : ℕ → ℕ → ℕ
decode_pair u v = (u - 0xd800) * 1024 + (v - 0xdc00) + 0x10000

-- utf16.Decode.
unfoldable pub decode : List ℕ → GoString
unfolding is_high is_low decode_unit decode_pair
decode [] = []
decode (u ∷ []) = decode_unit u ∷ []
decode (u ∷ v ∷ us) = elim (is_high u && is_low v) [
  | true ↦ decode_pair u v ∷ decode us
  | false ↦ decode_unit u ∷ decode (v ∷ us)
]

-- A string holds a NUL.
unfoldable pub has_nul : GoString → Bool
has_nul [] = false
has_nul (r ∷ s) = r == 0 || has_nul s

-- The == of two strings.
unfoldable pub same_text : GoString → GoString → Bool
same_text [] [] = true
same_text [] (q ∷ t) = false
same_text (r ∷ s) [] = false
same_text (r ∷ s) (q ∷ t) = r == q && same_text s t

-- The code points of a literal.
abbrev pub codes : String → GoString
codes String.[] = []
codes (String.◌∷◌ c s) = code c ∷ codes s
