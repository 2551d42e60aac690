-- ===== src/Syscall.antt =====
-- The functions of Go's package syscall that the packages call: conversions of text, which are
-- run here, and calls to Windows, whose answers are left open.
pub mod RoundTrip
use winsvc.Prelude.{
  ℕ, zero, suc, Bool, false, Option, none, some, List, [], ◌∷◌, ◌++◌, ◌==◌, if◌then◌else◌,
}
use winsvc.Unicode.{GoString, encode, decode, has_nul}
use winsvc.Winapi.Constants.{wait_failed, error_insufficient_buffer}
use winsvc.Winapi.Types.{StringPtr, Tokengroups}
use winsvc.Winapi.System.{
  Call, Reply, errno, M, return, fail, panics, ◌>>=◌, Attempt, attempt, call, Error, message,
  wrapped, returned, failed,
}
use winsvc.Winapi.Procs.{check_nonzero, check_errno, last_error, answer}

-- syscall.StringToUTF16: a NUL inside is a panic, and a 0 is put at the end.
unfoldable pub string_to_utf16 : GoString → M (List ℕ)
string_to_utf16 s = if has_nul s then panics else return (encode s ++ 0 ∷ [])

-- syscall.StringToUTF16Ptr
unfoldable pub string_to_utf16_ptr : GoString → M StringPtr
unfolding string_to_utf16
string_to_utf16_ptr s = do us ← string_to_utf16 s; return (some us)

abbrev pub add_unit : ℕ → Option (List ℕ) → Option (List ℕ)
add_unit u none = none
add_unit u (some us) = some (u ∷ us)

-- The units before the first 0 among the first n units of memory, and all n if none is 0. The
-- result is none where the search would leave the memory that the pointer is good for.
unfoldable pub units_before_zero : ℕ → List ℕ → Option (List ℕ)
units_before_zero zero us = some []
units_before_zero (suc n) [] = none
units_before_zero (suc n) (u ∷ us) = if u == 0 then some [] else add_unit u (units_before_zero n us)

abbrev decoded : Option (List ℕ) → Option GoString
decoded none = none
decoded (some us) = some (decode us)

-- syscall.UTF16ToString of the n units that a pointer points to.
unfoldable pub utf16_to_string : ℕ → List ℕ → Option GoString
unfolding units_before_zero
utf16_to_string n us = decoded (units_before_zero n us)

unfoldable pub close_handle : (handle : ℕ) → M (Unit {0})
unfolding check_nonzero
close_handle handle = do r ← call (Call.close_handle handle); check_nonzero r

-- The event and, where it is WAIT_FAILED, the error.
unfoldable pub wait_for_single_object : (handle milliseconds : ℕ) → M Reply
wait_for_single_object handle milliseconds = call (Call.wait_for_single_object handle milliseconds)

-- The size that is needed comes back also where the call fails.
unfoldable pub get_token_information : (token class buf_size : ℕ) → M (Attempt Reply × ℕ)
unfolding check_nonzero
get_token_information token class buf_size = do
  r ← call (Call.get_token_information token class buf_size)
  checked ← attempt (check_nonzero r)
  return (answer checked r, r.dword)

-- What follows the second try.
abbrev second_try : Attempt Reply × ℕ → M Reply
second_try (returned r, n) = return r
second_try (failed e, n) = fail e

-- What follows the first try. The type assertion err.(syscall.Errno) of another error is a
-- panic, and so is `&b[0]` of a buffer of no bytes.
abbrev first_try : (ℕ → M (Attempt Reply × ℕ)) → Attempt Reply × ℕ → M Reply
first_try ask (returned r, n) = return r
first_try ask (failed (message m), n) = panics
first_try ask (failed (wrapped m e), n) = panics
first_try ask (failed (errno e), n) =
    if e == error_insufficient_buffer
    then (if n == 0 then panics else (do second ← ask n; second_try second))
    else fail (errno e)

-- The pattern of getInfo and of Config: ask with a buffer of the initial size, and where that is
-- insufficient once more with a buffer of the size that the answer names.
unfoldable pub query_grown : (ℕ → M (Attempt Reply × ℕ)) → (init_size : ℕ) → M Reply
query_grown ask init_size = do first ← ask init_size; first_try ask first

unfoldable pub open_current_process_token : M ℕ
unfolding check_nonzero
open_current_process_token = do
  r ← call Call.open_current_process_token
  _ ← check_nonzero r
  return r.handle

unfoldable pub close_token : (token : ℕ) → M (Unit {0})
unfolding check_nonzero
close_token token = do r ← call (Call.close_token token); check_nonzero r

unfoldable pub reg_open_key_ex : (parent : ℕ) → (path : StringPtr) → (options desired : ℕ) → M ℕ
unfolding check_errno
reg_open_key_ex parent path options desired = do
  r ← call (Call.reg_open_key_ex parent path options desired)
  _ ← check_errno r
  return r.handle

unfoldable pub reg_close_key : (key : ℕ) → M (Unit {0})
unfolding check_errno
reg_close_key key = do r ← call (Call.reg_close_key key); check_errno r
