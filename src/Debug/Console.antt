-- ===== src/Debug/Console.antt =====
-- debug/log.go: the log on the console. What was written to standard output is the list of its
-- texts, the latest first, and whether a write fails is the answer of the console.
pub mod Lines
use winsvc.Prelude.{
  ℕ, zero, suc, ◌+◌, ◌/◌, ◌%◌, Option, none, some, List, [], ◌∷◌, ◌++◌, ltb, if◌then◌else◌,
}
use winsvc.Unicode.{GoString, codes}
use winsvc.Winapi.System.{Error, Outcome, ok, err}

pub record ConsoleLog : Type 0 where
  pub name : GoString

-- Standard output: how it answers a write after what was written before.
abbrev pub Console : Type 0
Console = List GoString → GoString → Option Error

abbrev pub Written : Type 0
Written = List GoString

abbrev written : Option Error → Outcome (Unit {0})
written none = ok tt
written (some e) = err e

unfoldable pub new : GoString → ConsoleLog
new source = record { name = source }

unfoldable pub close : ConsoleLog → Outcome (Unit {0})
close l = ok tt

-- strconv.Itoa, on the number of its digits at most.
unfoldable pub itoa_loop : ℕ → ℕ → GoString
itoa_loop zero n = []
itoa_loop (suc k) n =
    let rest = itoa_loop k (n / 10) in
    if ltb n 10 then (b'0' + n) ∷ [] else rest ++ (b'0' + n % 10) ∷ []

unfoldable pub itoa : ℕ → GoString
unfolding itoa_loop
itoa n = itoa_loop 20 n

-- The text of one report.
unfoldable pub line : ConsoleLog → (kind : GoString) → (eid : ℕ) → (msg : GoString) → GoString
unfolding itoa
line l kind eid msg =
    l.name
    ++ (codes "." ++ (kind ++ (codes "(" ++ (itoa eid ++ (codes "): " ++ (msg ++ codes "\n"))))))

unfoldable pub report :
    ConsoleLog
    → (kind : GoString) → (eid : ℕ) → (msg : GoString) → Console
    → Written
    → Outcome (Unit {0}) × Written
unfolding line
report l kind eid msg console out =
    (written (console out (line l kind eid msg)), line l kind eid msg ∷ out)

unfoldable pub info :
    ConsoleLog → (eid : ℕ) → (msg : GoString) → Console → Written → Outcome (Unit {0}) × Written
unfolding report
info l eid msg = report l (codes "info") eid msg

unfoldable pub warning :
    ConsoleLog → (eid : ℕ) → (msg : GoString) → Console → Written → Outcome (Unit {0}) × Written
unfolding report
warning l eid msg = report l (codes "warn") eid msg

unfoldable pub error :
    ConsoleLog → (eid : ℕ) → (msg : GoString) → Console → Written → Outcome (Unit {0}) × Written
unfolding report
error l eid msg = report l (codes "error") eid msg
