-- ===== src/EventLog.antt =====
-- eventlog/: the event log and the registration of its sources.
pub mod Source
pub mod Log
