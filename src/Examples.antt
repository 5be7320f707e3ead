-- ===== src/Examples.antt =====
-- The theorems applied to concrete inputs: data, a codec and stores to run the program on.
pub mod Setting
pub mod Format
mod Storing
mod Leasing
mod Pure
mod Repos
mod Queueing
pub mod Connecting
mod TaskFormat
mod Serving
mod Merges
mod Expiring
mod Controlling
pub mod Announcing
mod Agents
mod Mounting
mod Publishing
mod Logging
mod Porting
mod Masks
