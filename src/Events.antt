-- ===== src/Events.antt =====
-- pkg/events: the parts of the program that pass events and log entries on.
pub mod Exchanges
pub mod Logs
