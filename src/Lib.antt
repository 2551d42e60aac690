-- ===== src/Lib.antt =====
-- Verification of the packages for Windows services: svc (a running service), mgr (the client of
-- the service control manager), eventlog, registry and debug, over winapi (the boundary to
-- Windows).
--
-- How the parts interact. svc.Run makes a service and hands its thread to Windows; the goroutine
-- run selects between the control callback, the handler and its exit, and reports each status by
-- SetServiceStatus. mgr creates, opens, configures and controls services. eventlog registers an
-- event source through registry, and writes events. debug runs a handler on the console. example
-- installs, removes, starts and controls a service with all of them.
--
-- The model of effects (Winapi/System.antt). Windows is a function from the calls made so far,
-- with their answers, and the next call to an answer; nothing else is assumed of it, except
-- where a theorem names a hypothesis. Code that calls it is a function of Windows and of that
-- trace, and ends with a value, with a Go error or with a panic; `deferred` is defer, `attempt` is
-- a caller that looks at err, and `ignore` one that drops it. A Go string is the list of its code
-- points, so that text which is not valid UTF-8 is outside the model; a pointer to text is nil or
-- the list of the units in memory from there, and a read beyond that list is a fault, which the
-- code that can fault answers with a panic or with none.
--
-- The files, by the part of the repository:
--   Unicode, Syscall: what the code uses of Go's unicode/utf16 and syscall;
--   Winapi/Constants, Types, Procs: winapi/*.go, each wrapper of winapi/zwinapi_windows.go by the
--     name of its function in snake case; Winapi/Procedures: the procedures behind
--     them; Winapi/Resources: which handles, keys and SIDs are held;
--   Svc/Types, Service, Loop, Run: svc/service.go (State, Cmd, Accepted, Status; newService, close,
--     updateStatus; the select loop of run; run, newCallback, ctlHandler and Run);
--     Svc/Event: svc/event.go; Svc/Security: svc/security.go; Svc/Threads: the service's main function
--     of svc/sys_amd64.s with run and the control callback, as a step relation; Svc/Handler: run with
--     an arbitrary handler, as a step relation; Svc/Machine: svc/sys_386.s and svc/sys_amd64.s,
--     instruction by instruction; Svc/Globals: init and the variables for the assembly part;
--     Svc/FuncPc: svc/go13.go;
--   Mgr/Strings, Config: mgr/config.go and the conversions of mgr/mgr.go; Mgr/Manager: mgr/mgr.go;
--     Mgr/Control: mgr/service.go;
--   Registry: registry/registry.go; EventLog/Source: eventlog/install.go; EventLog/Log:
--     eventlog/log.go;
--   Debug/Console, Debug/Log: the log on the console and the interface of debug/log.go; Debug/Pump:
--     the goroutine of debug/service.go; Debug/Session: Run of that file with an arbitrary handler, as a
--     step relation;
--   Example/Manage: example/manage.go; Example/Install: example/install.go;
--     Example/Running: runService of example/service.go; Example/Handler: the accepted controls of
--     Execute; Example/Goroutines: Execute with its goroutines, as a handler that Svc/Handler and
--     Debug/Session take; Example/Main: example/main.go;
--   Prelude: shared notation and lemmas; Tests: runs and instances at concrete data.
-- The children of a module hold its proofs.
--
-- What Windows stores. Three modules read a state of Windows off the trace, with a contract of its
-- documented behaviour that theorems take as a hypothesis: Mgr/Config/Stored (the configuration of
-- a service), EventLog/Source/Stored (the keys of event sources) and Example/Install/Stored (which
-- services are installed; its contract is only that CreateService fails under a name that is taken).
-- Tests has a Windows that fulfils each. Winapi/Observed and Winapi/Returning have the rules for code
-- that leaves such a state alone or does not panic.
--
-- Concurrency. The select of run and that of debug.Run take a list of offers: the order in which
-- their peers become ready. A channel that is nil makes an offer wait, and the peer offers again
-- later in the list. The theorems hold for all lists of offers and all answers of Windows. Where
-- goroutines run next to each other, Svc/Threads, Svc/Handler and Debug/Session are relations between a
-- state and the next one, and a send on a channel without a buffer is one step of both sides. The
-- children of these modules lead each run of them back to the functions over offers.
--
-- Bounds. The loops are recursions on their lists. toStringSlice looks at 2^24 units at most,
-- UTF16ToString at the 4096 or 2^20 units of the array that the code names, strconv.Itoa has 20
-- digits, which is more than a uint32 needs. Numbers are natural numbers, with the width of a
-- uint32 written out where the code narrows one. int is taken to have 64 bits.
--
-- The assembly part runs on a machine of registers, a stack and the variables of package svc. An
-- address on the stack is its depth below the frame of the caller. What Windows does at a call is
-- arbitrary, as far as it keeps to its calling conventions.
--
-- Not modelled: svc/go12.c, which is built before Go 1.3 only and stores the address that svc/go13.go
-- stores, the loading of DLLs, the beep of example, and the tests. runService is modelled around any
-- run; the definition that main uses runs svc.Run without the entries that Execute writes to the event
-- log meanwhile.
pub mod Prelude
pub mod Unicode
pub mod Winapi
pub mod Syscall
pub mod Svc
pub mod Mgr
pub mod Registry
pub mod EventLog
pub mod Debug
pub mod Example
mod Tests
