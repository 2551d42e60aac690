-- ===== src/Tests/SvcTold.antt =====
-- A service from its start to its end, at concrete data.
use winsvc.Prelude.{List, ◌≡◌, refl, arith, some, [], ◌∷◌, ◌++◌, map}
use winsvc.Unicode.{GoString, codes, encode, encode_rune, has_nul}
use winsvc.Svc.Types.{running, stop}
use winsvc.Svc.Loop.{Offer, control, deliver, change, exit}
use winsvc.Svc.Run.{arguments, run}
use winsvc.Svc.Run.Arguments.{wide, arguments-wide}
use winsvc.Winapi.System.{calls}
use winsvc.Svc.Run.Words.{AnswersWords, AllTyped, run-AllTyped}
use winsvc.Svc.Run.Told.{Accepts, EndsTelling, told_calls, run-EndsTelling}
use winsvc.Tests.Data.{generous, beeper, event_of, exit_with, status_with}

abbrev args : List GoString
args = codes "beeper" ∷ []

args_read : arguments 1 (map (wide []) args ++ []) ≡ some args
unfolding encode encode_rune has_nul
args_read = arguments-wide [] args [] (ground arith) (omega arith)

generous-Accepts : Accepts generous
generous-Accepts t h st = omega arith

abbrev life : List Offer
life =
    change (status_with running 1)
    ∷ control (event_of stop 0)
    ∷ deliver
    ∷ exit (exit_with 3)
    ∷ control (event_of stop 9)
    ∷ []

run-EndsTelling_example :
    EndsTelling args
      (exit_with 3)
      (told_calls (record beeper { h = 9 }) (exit_with 3) (status_with running 1 ∷ []) [])
      (run beeper 9 1 (map (wide []) args ++ []) life generous [])
run-EndsTelling_example =
    run-EndsTelling beeper 9 1 (map (wide []) args ++ []) life generous [] args
      (status_with running 1 ∷ []) (exit_with 3) generous-Accepts (omega arith) (refl, tt) args_read
      refl

generous_words : AnswersWords generous
generous_words t c = ground arith

-- A control from another thread breaks the loop.
abbrev stray : List Offer
stray = change (status_with running 0x10f) ∷ control (event_of stop 0x20000001) ∷ []

run-AllTyped_example :
    AllTyped (calls (run beeper 9 1 (map (wide []) args ++ []) stray generous []).1)
run-AllTyped_example =
    run-AllTyped beeper 9 1 (map (wide []) args ++ []) stray generous [] generous_words
      (ground arith) tt
