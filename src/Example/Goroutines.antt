-- ===== src/Example/Goroutines.antt =====
-- example/service.go: Execute with its goroutines as a handler of Svc/Handler.antt, where each send
-- is a step of its own. A status is made before it is sent, so that what it says may be older than
-- what the counter says when it is taken. An increment of the counter is one step; the sleeps are
-- left out. What stands behind Execute's end goes on: goroutines that it left, but not in a
-- process that a panic has ended.
pub mod Frames
pub mod Hangs
pub mod Returns
pub mod Standing
pub mod Orderly
pub mod Crash
pub mod Stops
use winsvc.Prelude.{
  ℕ, ◌≡◌, ◌⊎◌, ◌+◌, ◌%◌, ◌^◌, Bool, true, false, ◌||◌, List, [], ◌∷◌, ◌++◌, ltb, ◌==◌,
  if◌then◌else◌, Option, none, some,
}
use winsvc.Svc.Types.{
  Status, ChangeRequest, ExitCode, bare_status, start_pending, running, paused, stop_pending,
  interrogate, stop, shutdown, pre_shutdown, pause, continue,
}
use winsvc.Svc.Handler.{Act, sends, receives, works, returns}
use winsvc.Example.Handler.{accepting}

-- Where Execute stands: in front of a send, in its select, behind its loop or at its end.
pub data Place : Type 0 where
  starting : Place
  announcing : Place
  selecting : Place
  echoing : Status → Place
  echoing_again : Status → Place
  pausing : Place
  continuing : Place
  leaving : Place
  ending : Status → Place
  ended : Place
  crashed : Place

-- A goroutine of PreShutdown: in front of its status, in the send, or asleep.
pub data Worker : Type 0 where
  going : Worker
  offering : Status → Worker
  asleep : Worker

pub record Execution : Type 0 where
  pub place : Place
  pub fast : Bool
  pub is_shutdown : Bool
  pub checkpoint : ℕ
  pub workers : List Worker
  pub beeps : ℕ
  pub unexpected : List ChangeRequest

abbrev pub at_start : Execution
at_start = record {
  place = starting;
  fast = true;
  is_shutdown = false;
  checkpoint = 1;
  workers = [];
  beeps = 0;
  unexpected = [];
}

-- What Execute sends at a place, and where it is then.
abbrev pub says : Place → Execution → Option (Status × Execution)
says starting t = some (bare_status start_pending, record t { place = announcing })
says announcing t = some (accepting running, record t { place = selecting })
says (echoing st) t = some (st, record t { place = echoing_again st })
says (echoing_again st) t = some (st, record t { place = selecting })
says pausing t = some (accepting paused, record t { place = selecting; fast = false })
says continuing t = some (accepting running, record t { place = selecting; fast = true })
says (ending st) t = some (st, record t { place = ended })
says _ t = none

-- The switch over the command.
unfoldable pub on_request : ChangeRequest → Execution → Execution
on_request c t =
    if c.cmd == interrogate
    then record t { place = echoing c.current_status }
    else if c.cmd == stop || (c.cmd == shutdown)
    then record t { place = leaving }
    else if c.cmd == pre_shutdown
    then record t { workers = going ∷ t.workers }
    else if c.cmd == pause
    then record t { place = pausing }
    else if c.cmd == continue
    then record t { place = continuing }
    else record t { unexpected = c ∷ t.unexpected }

-- The status behind the loop.
abbrev pub last_status : Execution → Status
last_status t = record (bare_status stop_pending) { check_point = t.checkpoint }

-- The status of a goroutine.
abbrev pub progress : Execution → Status
progress t = record (bare_status stop_pending) { wait_hint = 3000; check_point = t.checkpoint }

-- `defer close(shutdown)`: a second time it is a panic, which ends the process.
abbrev pub close_shutdown : Execution → Execution
close_shutdown t =
    if t.is_shutdown
    then record t { place = crashed; workers = [] }
    else record t { is_shutdown = true }

-- A goroutine wakes, between the others.
unfoldable pub wake : (before after : List Worker) → Execution → Execution
wake xs ys t =
    let next = (t.checkpoint + 1) % 2 ^ 32 in
    if ltb 30 next
    then close_shutdown (record t { checkpoint = next; workers = xs ++ ys })
    else record t { checkpoint = next; workers = xs ++ going ∷ ys }

-- A status is taken from Execute, or from a goroutine.
pub data Speaks (t : Execution) (st : Status) (u : Execution) : Type 0 where
  main_speaks : says t.place t ≡ some (st, u) → Speaks t st u
  worker_speaks :
      (xs ys : List Worker)
      → t.workers ≡ xs ++ offering st ∷ ys
      → u ≡ record t { workers = xs ++ asleep ∷ ys }
      → Speaks t st u

pub data Works (t u : Execution) : Type 0 where
  ticks : t.place ≡ selecting → u ≡ record t { beeps = t.beeps + 1 } → Works t u
  shuts : t.place ≡ selecting → t.is_shutdown ≡ true → u ≡ record t { place = leaving } → Works t u
  concludes : t.place ≡ leaving → u ≡ record t { place = ending (last_status t) } → Works t u
  worker_offers :
      (xs ys : List Worker)
      → t.workers ≡ xs ++ going ∷ ys
      → u ≡ record t { workers = xs ++ offering (progress t) ∷ ys }
      → Works t u
  worker_wakes :
      (xs ys : List Worker) → t.workers ≡ xs ++ asleep ∷ ys → u ≡ wake xs ys t → Works t u

-- The named results are not set.
abbrev pub no_error : ExitCode
no_error = record { is_svc_specific = false; errno = 0 }

abbrev pub Execute : Execution → Act Execution → Type 0
Execute t (sends st u) = Speaks t st u
Execute t (receives c u) = (t.place ≡ selecting) × (u ≡ on_request c t)
Execute t (works u) = Works t u
Execute t (returns ec u) = (t.place ≡ ended) × (ec ≡ no_error) × (u ≡ t)
