-- ===== src/Mgr.antt =====
-- mgr/: the service control manager's client.
pub mod Strings
pub mod Config
pub mod Manager
pub mod Control
