-- ===== src/Debug/Log/Journal.antt =====
-- The contract of the interface Log: each report adds one entry, and closing adds none.
use winsvc.Prelude.{ℕ, ◌≡◌, ◌≢◌, refl, false, some, List, [], ◌∷◌, ◌++◌, arith}
use winsvc.Unicode.{GoString, codes, encode, has_nul}
use winsvc.Winapi.Constants
use winsvc.Winapi.System.{Call, Os, Trace, panic}
use winsvc.Winapi.Types.{ReportEventArgs}
use winsvc.Debug.Console
use winsvc.Debug.Console.{ConsoleLog}
use winsvc.Debug.Log.{World, Program, Log, console_log, event_log}
use winsvc.EventLog.Log as EventSource

pub data Kind : Type 0 where
  information : Kind
  caution : Kind
  failure : Kind

abbrev pub report : Log → Kind → ℕ → GoString → Program (Unit {0})
report l information eid msg = l.info eid msg
report l caution eid msg = l.warning eid msg
report l failure eid msg = l.error eid msg

-- The entries that a log has, and what a report and a close do to them. A report may fail, and
-- counts as written then too; it does not panic on a text without NUL.
pub record Journal (l : Log) : Type 1 where
  pub Entry : Type 0
  pub entries : World → List Entry
  pub entry : Kind → ℕ → GoString → Entry
  pub entries-report :
      (k : Kind) (eid : ℕ) (msg : GoString) (os : Os) (console : Console.Console) (w : World)
      → has_nul msg ≡ false
      → entries (report l k eid msg os console w).1 ≡ entry k eid msg ∷ entries w
  pub report_returns :
      (k : Kind) (eid : ℕ) (msg : GoString) (os : Os) (console : Console.Console) (w : World)
      → has_nul msg ≡ false
      → (report l k eid msg os console w).0 ≢ panic
  pub entries-close :
      (os : Os) (console : Console.Console) (w : World)
      → entries (l.close os console w).1 ≡ entries w

-- On the console an entry is a line.
abbrev pub kind_text : Kind → GoString
kind_text information = codes "info"
kind_text caution = codes "warn"
kind_text failure = codes "error"

module _ (l : ConsoleLog) where
  pub line_added :
      (k : Kind) (eid : ℕ) (msg : GoString) (os : Os) (console : Console.Console) (w : World)
      → (report (console_log l) k eid msg os console w).1.written
        ≡ Console.line l (kind_text k) eid msg ∷ w.written
  unfolding console_log
  line_added information eid msg os console w = refl
  line_added caution eid msg os console w = refl
  line_added failure eid msg os console w = refl

  pub line_returns :
      (k : Kind) (eid : ℕ) (msg : GoString) (os : Os) (console : Console.Console) (w : World)
      → (report (console_log l) k eid msg os console w).0 ≢ panic
  unfolding console_log
  line_returns information eid msg os console w = ground arith
  line_returns caution eid msg os console w = ground arith
  line_returns failure eid msg os console w = ground arith

  pub line_closed :
      (os : Os) (console : Console.Console) (w : World)
      → ((console_log l).close os console w).1.written ≡ w.written
  unfolding console_log
  line_closed os console w = refl

  abbrev pub console_journal : Journal (console_log l)
  console_journal = record {
    Entry = GoString;
    entries = λ w. w.written;
    entry = λ k eid msg. Console.line l (kind_text k) eid msg;
    entries-report = λ k eid msg os console w n. line_added k eid msg os console w;
    report_returns = λ k eid msg os console w n. line_returns k eid msg os console w;
    entries-close = line_closed;
  }

-- In the event log an entry is the request of a ReportEvent.
abbrev pub events : Trace → List ReportEventArgs
events [] = []
events ((Call.report_event args, r) ∷ t) = args ∷ events t
events ((_, r) ∷ t) = events t

abbrev pub event_type : Kind → ℕ
event_type information = Constants.eventlog_information_type
event_type caution = Constants.eventlog_warning_type
event_type failure = Constants.eventlog_error_type

abbrev pub event_of : (log : ℕ) → Kind → (eid : ℕ) → (msg : GoString) → ReportEventArgs
event_of log k eid msg = record {
  log = log;
  etype = event_type k;
  category = 0;
  event_id = eid;
  usr_sid = 0;
  num_strings = 1;
  data_size = 0;
  strings = some (encode msg ++ 0 ∷ []) ∷ [];
  raw_data = 0;
}

module _ (l : EventSource.Log) where
  pub event_added :
      (k : Kind) (eid : ℕ) (msg : GoString) (os : Os) (console : Console.Console) (w : World)
      → has_nul msg ≡ false
      → events (report (event_log l) k eid msg os console w).1.trace
        ≡ event_of l.handle k eid msg ∷ events w.trace
  unfolding event_log
  event_added information eid msg os console w n = ground arith
  event_added caution eid msg os console w n = ground arith
  event_added failure eid msg os console w n = ground arith

  pub event_returns :
      (k : Kind) (eid : ℕ) (msg : GoString) (os : Os) (console : Console.Console) (w : World)
      → has_nul msg ≡ false
      → (report (event_log l) k eid msg os console w).0 ≢ panic
  unfolding event_log
  event_returns information eid msg os console w n = ground arith
  event_returns caution eid msg os console w n = ground arith
  event_returns failure eid msg os console w n = ground arith

  pub event_closed :
      (os : Os) (console : Console.Console) (w : World)
      → events ((event_log l).close os console w).1.trace ≡ events w.trace
  unfolding event_log
  event_closed os console w = ground arith

  abbrev pub event_journal : Journal (event_log l)
  event_journal = record {
    Entry = ReportEventArgs;
    entries = λ w. events w.trace;
    entry = λ k eid msg. event_of l.handle k eid msg;
    entries-report = event_added;
    report_returns = event_returns;
    entries-close = event_closed;
  }
