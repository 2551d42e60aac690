-- ===== src/Tests/SvcRun.antt =====
-- The start and the end of a service.
use mathlib.Core.List.{Memᴰ}
use winsvc.Prelude.{if◌then◌else◌, ◌≡◌, ◌+◌, refl, some, List, [], ◌∷◌, ◌++◌, map, arith, ◌==◌, ◌%◌}
use winsvc.Unicode.{GoString, codes, has_nul, encode, encode_rune}
use winsvc.Winapi.System.{Call, Os, panic, calls, wait_for_single_object, ◌>>=◌}
use winsvc.Winapi.Constants.{infinite}
use winsvc.Winapi.Resources.{live}
use winsvc.Svc.Types.{running, stop}
use winsvc.Svc.Service.{controls_accepted, new_service}
use winsvc.Svc.Service.Handles.{held, live-new_service}
use winsvc.Svc.Service.Report.{controls_accepted-bits}
use winsvc.Svc.Loop.{Offer, control, change, exit, start_round, select}
use winsvc.Svc.Run.{made, ctl_handler, run_service, arguments, run}
use winsvc.Svc.Run.Arguments.{wide, arguments-wide, run_panics}
use winsvc.Svc.Run.Control.{EndsHolding, run_service-EndsHolding, EndsHandled, select-ctl_handler}
use winsvc.Svc.Run.Ending.{EndsStopped, looped, run-EndsStopped}
use winsvc.Svc.Security.{is_an_interactive_session, scan_groups}
use winsvc.Svc.Security.Tokens.{is_an_interactive_session-KeepsLive}
use winsvc.Svc.Security.Session.{ComparesSids, Verdict, scan_groups-Verdict}
use winsvc.Tests.Data.{reply, generous, beeper, status_with, exit_with}

controls_accepted-bits_example : controls_accepted 0x10d ≡ 1 + 0 + 4 + 256
controls_accepted-bits_example = controls_accepted-bits 0x10d

abbrev args : List GoString
args = codes "beeper" ∷ codes "-v" ∷ []

arguments-wide_example : arguments 2 (map (wide (7 ∷ 7 ∷ [])) args ++ some [] ∷ []) ≡ some args
unfolding encode encode_rune has_nul
arguments-wide_example =
    arguments-wide (7 ∷ 7 ∷ []) args (some [] ∷ []) (ground arith) (omega arith)

run_panics_example :
    ((run beeper 9 101 [] [] generous []).0 ≡ panic)
    × (calls (run beeper 9 101 [] [] generous []).1 ≡ wait_for_single_object 12 infinite ∷ [])
run_panics_example = run_panics beeper 9 101 [] [] generous [] (omega arith)

abbrev short_life : List Offer
short_life = change (status_with running 5) ∷ exit (exit_with 3) ∷ []

arguments_read : arguments 2 (map (wide []) args ++ []) ≡ some args
unfolding encode encode_rune has_nul
arguments_read = arguments-wide [] args [] (ground arith) (omega arith)

run-EndsStopped_example :
    EndsStopped beeper 9 args
      (calls (looped beeper 9 args generous (omega arith) short_life []))
      (run beeper 9 2 (map (wide []) args ++ []) short_life generous [])
run-EndsStopped_example =
    run-EndsStopped beeper 9 args generous (omega arith) short_life (exit_with 3) 2
      (map (wide []) args ++ []) [] arguments_read (Memᴰ.tail (Memᴰ.head refl))

run_service-EndsHolding_example :
    EndsHolding [] (run_service (codes "beeper") 4096 (made 8192) generous [])
run_service-EndsHolding_example =
    run_service-EndsHolding (codes "beeper") 4096 (made 8192) generous []

select-ctl_handler_example :
    EndsHandled
      (77 % 0x100000000 == 78)
      stop
      ((do e ← ctl_handler 78 stop 0 0 0; select beeper (control e) start_round) generous [])
select-ctl_handler_example =
    select-ctl_handler beeper 78 stop 0 0 0 start_round generous [] refl refl

is_an_interactive_session-KeepsLive_example : live (is_an_interactive_session generous []).1 ≡ []
is_an_interactive_session-KeepsLive_example = is_an_interactive_session-KeepsLive generous []

-- SIDs are the same where their addresses have the same last two digits.
abbrev comparing : Os
comparing s (Call.equal_sid a b) = reply (if a % 100 == b % 100 then 1 else 0) 0 0 0
comparing s c = generous s c

comparing-ComparesSids : ComparesSids comparing (λ a. Unit {0}) (λ a. a % 100 ∷ [])
comparing-ComparesSids s a b u v = ((λ n. ground arith), (λ z. ground arith))

-- The service SID is the second group.
scan_groups-Verdict_example :
    Verdict
      (λ a. a % 100 ∷ [])
      (1 ∷ 3 ∷ 2 ∷ [])
      102
      103
      (scan_groups (record { groups = 1 ∷ 3 ∷ 2 ∷ [] }) 102 103 comparing []).0
scan_groups-Verdict_example =
    scan_groups-Verdict comparing (λ a. Unit {0}) (λ a. a % 100 ∷ [])
      (record { groups = 1 ∷ 3 ∷ 2 ∷ [] }) 102 103 [] comparing-ComparesSids tt tt
      (tt, (tt, (tt, tt))) (omega arith)

-- The second event is refused, and the first one is closed.
abbrev one_event : Os
one_event [] (Call.create_event attributes manual initial name) = reply 100 0 0 0
one_event t c = reply 0 8 0 0

live-new_service_example :
    live (new_service (codes "beeper") one_event []).1
    ≡ held (new_service (codes "beeper") one_event []).0 []
live-new_service_example = live-new_service (codes "beeper") one_event []
