-- ===== src/Debug/Log.antt =====
-- debug/log.go: the interface Log, which the log on the console and a source of the event log
-- implement. A program that uses it sees Windows and standard output.
pub mod Journal
use winsvc.Prelude.{ℕ}
use winsvc.Unicode.{GoString}
use winsvc.Winapi.System.{Error, Os, Trace, Outcome, ok, err, panic, M, Attempt, returned, failed}
use winsvc.Debug.Console
use winsvc.Debug.Console.{ConsoleLog, Written}
use winsvc.EventLog.Log as EventSource

-- The calls of Windows and the texts on standard output so far, the latest first.
pub record World : Type 0 where
  pub trace : Trace
  pub written : Written

abbrev pub Program : Type 0 → Type 0
Program A = Os → Console.Console → World → Outcome A × World

module _ {A : Type 0} where
  abbrev pub return : A → Program A
  return a os console w = (ok a, w)

  abbrev pub fail : Error → Program A
  fail e os console w = (err e, w)

  abbrev pub panics : Program A
  panics os console w = (panic, w)

  abbrev pub with_trace : Outcome A × Trace → World → Outcome A × World
  with_trace (r, t) w = (r, record w { trace = t })

  abbrev pub with_written : Outcome A × Written → World → Outcome A × World
  with_written (r, out) w = (r, record w { written = out })

  -- Code that sees Windows only, and code that sees the console only.
  abbrev pub on_windows : M A → Program A
  on_windows m os console w = with_trace (m os w.trace) w

  abbrev pub on_console : (Console.Console → Written → Outcome A × Written) → Program A
  on_console m os console w = with_written (m console w.written) w

  abbrev pub settle : Outcome A × World → Outcome (Attempt A) × World
  settle (ok a, w) = (ok (returned a), w)
  settle (err e, w) = (ok (failed e), w)
  settle (panic, w) = (panic, w)

  abbrev pub attempt : Program A → Program (Attempt A)
  attempt m os console w = settle (m os console w)

  abbrev pub drop_error : Outcome A × World → Outcome (Unit {0}) × World
  drop_error (ok a, w) = (ok tt, w)
  drop_error (err e, w) = (ok tt, w)
  drop_error (panic, w) = (panic, w)

  abbrev pub ignore : Program A → Program (Unit {0})
  ignore m os console w = drop_error (m os console w)

  abbrev pub after :
      Outcome A × World → Program (Unit {0}) → Os → Console.Console → Outcome A × World
  after (r, w) d os console = (r, (d os console w).1)

  abbrev pub deferred : Program (Unit {0}) → Program A → Program A
  deferred d m os console w = after (m os console w) d os console

abbrev pub resume :
    {A B : Type 0} → Outcome A × World → (A → Program B) → Os → Console.Console → Outcome B × World
resume (ok a, w) f os console = f a os console w
resume (err e, w) f os console = (err e, w)
resume (panic, w) f os console = (panic, w)

infixl 5 ◌>>=◌
abbrev pub ◌>>=◌ : {A B : Type 0} → Program A → (A → Program B) → Program B
◌>>=◌ m f os console w = resume (m os console w) f os console

pub record Log : Type 0 where
  pub close : Program (Unit {0})
  pub info : ℕ → GoString → Program (Unit {0})
  pub warning : ℕ → GoString → Program (Unit {0})
  pub error : ℕ → GoString → Program (Unit {0})

unfoldable pub console_log : ConsoleLog → Log
unfolding Console.close Console.info Console.warning Console.error
console_log l = record {
  close = on_console (λ console out. (Console.close l, out));
  info = λ eid msg. on_console (Console.info l eid msg);
  warning = λ eid msg. on_console (Console.warning l eid msg);
  error = λ eid msg. on_console (Console.error l eid msg);
}

unfoldable pub event_log : EventSource.Log → Log
unfolding EventSource.close EventSource.info EventSource.warning EventSource.error
event_log l = record {
  close = on_windows (EventSource.close l);
  info = λ eid msg. on_windows (EventSource.info l eid msg);
  warning = λ eid msg. on_windows (EventSource.warning l eid msg);
  error = λ eid msg. on_windows (EventSource.error l eid msg);
}
