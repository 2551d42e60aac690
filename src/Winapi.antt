-- ===== src/Winapi.antt =====
-- winapi/: the boundary to Windows.
pub mod Observed
pub mod Procedures
pub mod Returning
pub mod Constants
pub mod Types
pub mod System
pub mod Procs
pub mod Resources
