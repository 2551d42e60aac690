-- ===== src/Mgr/Strings/Dependencies.antt =====
-- What toStringSlice reads is what toStringBlock wrote.
use mathlib.Core.List.{append_assoc, append-nil}
use native.Mathlib.Nat.{zero-add, suc-add}
use winsvc.Prelude.{
  ℕ, zero, suc, ◌+◌, ◌-◌, ◌≤◌, ◌<◌, ◌≡◌, refl, sym, ap, ◌∙◌, false, none, some, List, [], ◌∷◌, ◌++◌,
  All, length, length-append, is_empty, arith, if◌then◌else◌,
}
use winsvc.Unicode.{GoString, IsScalar, encode, has_nul, encode_rune}
use winsvc.Unicode.RoundTrip.{NoZero, decode-encode, encode-NoZero, encode-append, encode-ne_nil}
use winsvc.Mgr.Strings.{
  join_strings, block_of, to_string_block, slice_loop, to_string_slice, add_string,
}

-- A dependency that Windows can store: valid text without NUL.
abbrev pub IsName : GoString → Type 0
IsName s = All IsScalar s × (has_nul s ≡ false)

-- The strings that are not empty.
abbrev pub named : List GoString → List GoString
named [] = []
named (s ∷ ss) = if is_empty s then named ss else s ∷ named ss

-- Each string with its terminator.
abbrev terminated : List GoString → GoString
terminated [] = []
terminated (s ∷ ss) = s ++ 0 ∷ terminated ss

join_strings-terminated :
    (t : GoString) (ss : List GoString) → join_strings t ss ≡ t ++ terminated (named ss)
unfolding join_strings
join_strings-terminated t [] = sym (append-nil t)
join_strings-terminated t ([] ∷ ss) = join_strings-terminated t ss
join_strings-terminated t ((r ∷ s) ∷ ss) =
    join_strings-terminated (t ++ ((r ∷ s) ++ 0 ∷ [])) ss
    ∙ (append_assoc t ((r ∷ s) ++ 0 ∷ []) (terminated (named ss))
        ∙ ap (λ l. t ++ (r ∷ l)) (append_assoc s (0 ∷ []) (terminated (named ss))))

-- A segment without a 0 is collected.
slice_loop-append :
    (us rest : List ℕ) (n : ℕ) (cur : List ℕ)
    → NoZero us
    → slice_loop (length us + n) cur (us ++ rest) ≡ slice_loop n (cur ++ us) rest
unfolding slice_loop
slice_loop-append [] rest n cur h = rw (zero-add, append-nil)
slice_loop-append (u ∷ us) rest n cur (k, h) =
    rw suc-add
      (ground (arith, slice_loop-append us rest n (cur ++ u ∷ []) h, append_assoc cur (u ∷ []) us))

-- A string and its terminator are read as one string.
slice_string :
    (r : ℕ) (s : GoString) (m : ℕ) (rest : List ℕ)
    → IsName (r ∷ s)
    → slice_loop (length (encode (r ∷ s)) + suc m) [] (encode (r ∷ s) ++ 0 ∷ rest)
      ≡ add_string (r ∷ s) (slice_loop m [] rest)
unfolding slice_loop
slice_string r s m rest (scalar, nul) =
    slice_loop-append (encode (r ∷ s)) (0 ∷ rest) (suc m) [] (encode-NoZero (r ∷ s) nul)
    ∙ ground (arith, encode-ne_nil r s, decode-encode (r ∷ s) scalar)

-- The text of a block in units.
encode-cons_terminated :
    (s t : GoString) (behind : List ℕ)
    → encode (s ++ 0 ∷ t) ++ 0 ∷ behind ≡ encode s ++ 0 ∷ (encode t ++ 0 ∷ behind)
unfolding encode encode_rune
encode-cons_terminated s t behind =
    rw (encode-append s (0 ∷ t)) (append_assoc (encode s) (0 ∷ encode t) (0 ∷ behind))

length-encode_terminated :
    (s t : GoString) → length (encode (s ++ 0 ∷ t)) ≡ length (encode s) + suc (length (encode t))
unfolding encode encode_rune
length-encode_terminated s t =
    rw (encode-append s (0 ∷ t)) (length-append (encode s) (0 ∷ encode t))

slice_loop-terminated :
    (ss : List GoString) (n : ℕ) (behind : List ℕ)
    → All IsName ss
    → length (encode (terminated (named ss))) < n
    → slice_loop n [] (encode (terminated (named ss)) ++ 0 ∷ behind) ≡ some (named ss)
slice_loop-terminated [] zero behind h k = elim k [ ]
slice_loop-terminated [] (suc n) behind h k = unfold slice_loop encode in refl
slice_loop-terminated ([] ∷ ss) n behind h k = slice_loop-terminated ss n behind h.1 k
slice_loop-terminated ((r ∷ s) ∷ ss) n behind (p, h) k =
    let e = length-encode_terminated (r ∷ s) (terminated (named ss)) in
    let m : ℕ = n - suc (length (encode (r ∷ s))) in
    let split : n ≡ length (encode (r ∷ s)) + suc m = omega (arith, e) in
    ap (λ us. slice_loop n [] us) (encode-cons_terminated (r ∷ s) (terminated (named ss)) behind)
    ∙ (ap
          (λ k.
            slice_loop k [] (encode (r ∷ s) ++ 0 ∷ (encode (terminated (named ss)) ++ 0 ∷ behind)))
          split
        ∙ (slice_string r s m _ p
            ∙ ap (add_string (r ∷ s)) (slice_loop-terminated ss m behind h (omega (arith, e)))))

read_text :
    (r : ℕ) (t : GoString) (ss : List GoString)
    → slice_loop 0x1000000 [] (encode (r ∷ t) ++ 0 ∷ []) ≡ some ss
    → to_string_slice (block_of (r ∷ t)) ≡ some ss
unfolding to_string_slice encode encode_rune
read_text r t ss e = ap (slice_loop 0x1000000 []) (encode-append (r ∷ t) (0 ∷ [])) ∙ e

read_block :
    (ss : List GoString)
    → slice_loop 0x1000000 [] (encode (terminated ss) ++ 0 ∷ []) ≡ some ss
    → to_string_slice (block_of (terminated ss)) ≡ some ss
unfolding to_string_slice
read_block [] e = refl
read_block ([] ∷ ss) e = read_text 0 (terminated ss) ([] ∷ ss) e
read_block ((r ∷ s) ∷ ss) e = read_text r (s ++ 0 ∷ terminated ss) ((r ∷ s) ∷ ss) e

-- The units that toStringBlock writes, its two zeros at the end included.
abbrev pub block_length : List GoString → ℕ
block_length ss = length (encode (terminated (named ss))) + 1

-- The units of the block.
abbrev pub block : List GoString → List ℕ
block ss = encode (terminated (named ss) ++ 0 ∷ [])

block_of-terminated :
    (ss : List GoString)
    → block_of (terminated ss)
      ≡ (if is_empty ss then none else some (encode (terminated ss ++ 0 ∷ [])))
block_of-terminated [] = refl
block_of-terminated ([] ∷ ss) = refl
block_of-terminated ((r ∷ s) ∷ ss) = refl

pub to_string_block-named :
    (ss : List GoString)
    → to_string_block ss ≡ (if is_empty (named ss) then none else some (block ss))
unfolding to_string_block
to_string_block-named [] = refl
to_string_block-named (s ∷ ss) =
    ap block_of (join_strings-terminated [] (s ∷ ss)) ∙ block_of-terminated (named (s ∷ ss))

-- The dependencies that toStringSlice reads from the block of toStringBlock are those that were
-- written, in order, without the empty ones, as long as the block has at most 2^24 units and each
-- name is valid text without NUL.
pub to_string_slice-to_string_block :
    (ss : List GoString)
    → All IsName ss
    → block_length ss ≤ 0x1000000
    → to_string_slice (to_string_block ss) ≡ some (named ss)
unfolding to_string_slice to_string_block
to_string_slice-to_string_block [] h k = refl
to_string_slice-to_string_block (s ∷ ss) h k =
    ap (λ t. to_string_slice (block_of t)) (join_strings-terminated [] (s ∷ ss))
    ∙ read_block (named (s ∷ ss)) (slice_loop-terminated (s ∷ ss) 0x1000000 [] h (omega (arith, k)))
