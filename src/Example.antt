-- ===== src/Example.antt =====
-- example: the program that installs, removes, starts and controls a service with the packages.
pub mod Manage
pub mod Install
pub mod Handler
pub mod Goroutines
pub mod Running
pub mod Main
