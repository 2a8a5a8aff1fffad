-- ===== src/Storage.antt =====
-- custom_components/skywatch/storage/
pub mod Schema
pub mod Connection
pub mod Statements
pub mod Migrations
pub mod Repository
pub mod History
pub mod Queries
