-- ===== src/Tests.antt =====
-- The theorems at concrete inputs: a few rows, a device that reads one timestamp, and a clock that
-- runs on UTC.
pub mod Fixtures
mod Storage
mod Runtime
mod Legacy
mod Home
mod Upgrade
mod Queries
mod Pure
