-- ===== src/Debug.antt =====
-- debug/: a service on the console.
pub mod Console
pub mod Pump
pub mod Session
pub mod Log
