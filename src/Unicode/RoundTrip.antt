-- ===== src/Unicode/RoundTrip.antt =====
-- Decoding undoes encoding on the strings that Go can hold, and no unit of a string without NUL
-- is 0.
use mathlib.Core.List.{append_assoc}
use winsvc.Prelude.{
  ℕ, ◌≢◌, ◌≡◌, refl, false, ◌∙◌, ap, sym, List, [], ◌∷◌, ◌++◌, All, All-append, arith,
}
use winsvc.Unicode.{GoString, IsScalar, encode_rune, encode, decode, has_nul}

decode-encode_rune :
    (r : ℕ) (us : List ℕ) → IsScalar r → decode (encode_rune r ++ us) ≡ r ∷ decode us
unfolding decode encode_rune
decode-encode_rune r us h = ground arith

-- utf16.Decode undoes utf16.Encode on a valid string.
pub decode-encode : (s : GoString) → All IsScalar s → decode (encode s) ≡ s
unfolding encode decode
decode-encode [] h = refl
decode-encode (r ∷ s) (k, h) =
    decode-encode_rune r (encode s) k ∙ ap (λ t. r ∷ t) (decode-encode s h)

-- No unit is the terminator.
abbrev pub NoZero : List ℕ → Type 0
NoZero = All (λ u. u ≢ 0)

encode_rune-NoZero : (r : ℕ) → r ≢ 0 → NoZero (encode_rune r)
unfolding encode_rune
encode_rune-NoZero r h = ground arith

pub encode-NoZero : (s : GoString) → has_nul s ≡ false → NoZero (encode s)
unfolding encode has_nul
encode-NoZero [] h = tt
encode-NoZero (r ∷ s) h =
    All-append _ (encode_rune r) (encode s) (encode_rune-NoZero r (ground arith))
      (encode-NoZero s (ground arith))

-- A string that is not empty has units.
pub encode-ne_nil : (r : ℕ) (s : GoString) → encode (r ∷ s) ≢ []
unfolding encode encode_rune
encode-ne_nil r s = ground arith

pub encode-append : (s t : GoString) → encode (s ++ t) ≡ encode s ++ encode t
unfolding encode
encode-append [] t = refl
encode-append (r ∷ s) t =
    ap (λ us. encode_rune r ++ us) (encode-append s t)
    ∙ sym (append_assoc (encode_rune r) (encode s) (encode t))
