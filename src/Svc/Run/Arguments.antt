-- ===== src/Svc/Run/Arguments.antt =====
-- The argument strings that run passes to the handler.
use winsvc.Prelude.{ℕ, ◌≤◌, ◌<◌, ◌≡◌, refl, some, List, [], ◌∷◌, ◌++◌, map, All, length, arith}
use winsvc.Unicode.{GoString, encode}
use winsvc.Syscall.RoundTrip.{IsText, utf16_to_string-encode}
use winsvc.Winapi.Types.{StringPtr}
use winsvc.Svc.Run.{argument, take_arguments, arguments, run}
use winsvc.Svc.Loop.{Offer}
use winsvc.Svc.Types.{Service}
use winsvc.Winapi.Constants.{infinite}
use winsvc.Winapi.System.{wait_for_single_object, Os, Trace, panic, calls}

-- A string as Windows passes it: its units, a 0, and whatever stands behind.
abbrev pub wide : List ℕ → GoString → StringPtr
wide behind s = some (encode s ++ 0 ∷ behind)

take_arguments-wide :
    (behind : List ℕ) (args : List GoString) (rest : List StringPtr)
    → All (IsText 0x100000) args
    → take_arguments (length args) (map (wide behind) args ++ rest) ≡ some args
unfolding take_arguments argument
take_arguments-wide behind [] rest h = refl
take_arguments-wide behind (s ∷ args) rest (k, h) =
    ground
      (arith, take_arguments-wide behind args rest h, utf16_to_string-encode 0x100000 s behind k)

-- Up to 100 arguments, each of at most 2^20 units, reach the handler as they were given.
pub arguments-wide :
    (behind : List ℕ) (args : List GoString) (rest : List StringPtr)
    → All (IsText 0x100000) args
    → length args ≤ 100
    → arguments (length args) (map (wide behind) args ++ rest) ≡ some args
unfolding arguments
arguments-wide behind args rest h k = ground (arith, take_arguments-wide behind args rest h)

-- With more than 100 arguments run panics behind its wait: it reports no status at all, and never
-- releases the thread of the service's main function.
pub run_panics :
    (s : Service) (h argc : ℕ) (argv : List StringPtr) (offers : List Offer) (os : Os) (t : Trace)
    → 100 < argc
    → ((run s h argc argv offers os t).0 ≡ panic)
      × (calls (run s h argc argv offers os t).1
          ≡ wait_for_single_object s.go_waits infinite ∷ calls t)
unfolding run arguments
run_panics s h argc argv offers os t k = ground arith
