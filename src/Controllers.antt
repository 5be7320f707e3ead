-- ===== src/Controllers.antt =====
-- pkg/controller: the controllers of the server, which react to events by calls of its API.
pub mod Client
pub mod Scheduler
pub mod Agent
pub mod Expiry
pub mod Server
