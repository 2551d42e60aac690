-- ===== src/Mgr/Strings.antt =====
-- mgr/mgr.go and mgr/config.go: text and lists of text for Windows, and back.
pub mod Dependencies
pub mod Pointers
use winsvc.Prelude.{
  ℕ, zero, suc, true, false, Option, none, some, List, [], ◌∷◌, ◌++◌, is_empty, ◌==◌, if◌then◌else◌,
}
use winsvc.Unicode.{GoString, encode, decode}
use winsvc.Syscall.{string_to_utf16_ptr, utf16_to_string}
use winsvc.Winapi.Types.{StringPtr}
use winsvc.Winapi.System.{M, return}

unfoldable pub to_ptr : GoString → M StringPtr
unfolding string_to_utf16_ptr
to_ptr s = if is_empty s then return none else string_to_utf16_ptr s

-- The loop of toStringBlock.
unfoldable pub join_strings : GoString → List GoString → GoString
join_strings t [] = t
join_strings t (s ∷ ss) = join_strings (if is_empty s then t else t ++ (s ++ 0 ∷ [])) ss

abbrev block_of : GoString → StringPtr
block_of t = if is_empty t then none else some (encode (t ++ 0 ∷ []))

unfoldable pub to_string_block : List GoString → StringPtr
unfolding join_strings
to_string_block [] = none
to_string_block (s ∷ ss) = block_of (join_strings [] (s ∷ ss))

-- The result is none where the search for the end leaves the memory behind the pointer.
unfoldable pub to_string : StringPtr → Option GoString
unfolding utf16_to_string
to_string none = some []
to_string (some us) = utf16_to_string 4096 us

abbrev pub add_string : GoString → Option (List GoString) → Option (List GoString)
add_string s none = none
add_string s (some ss) = some (s ∷ ss)

-- The loop of toStringSlice with n indices left, behind the units p[from:i]. The result is none
-- where it runs out of the array's indices or of the memory behind the pointer.
unfoldable pub slice_loop : ℕ → List ℕ → List ℕ → Option (List GoString)
slice_loop zero cur us = none
slice_loop (suc n) cur [] = none
slice_loop (suc n) cur (u ∷ us) = elim (u == 0) [
  | true ↦ if is_empty cur then some [] else add_string (decode cur) (slice_loop n [] us)
  | false ↦ slice_loop n (cur ++ u ∷ []) us
]

unfoldable pub to_string_slice : StringPtr → Option (List GoString)
unfolding slice_loop
to_string_slice none = some []
to_string_slice (some us) = slice_loop 0x1000000 [] us
