-- ===== src/Svc.antt =====
-- svc/: the running service.
pub mod Types
pub mod Event
pub mod Service
pub mod Loop
pub mod Run
pub mod Security
pub mod Threads
pub mod Machine
pub mod Globals
pub mod FuncPc
pub mod Handler
