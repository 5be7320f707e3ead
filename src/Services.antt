-- ===== src/Services.antt =====
-- internal/app: the services of the server, on the repositories and the event exchange.
pub mod Leasing
pub mod Tasks
pub mod Resources
pub mod Statuses
pub mod Upgrading
