-- ===== src/Storage/Queries.antt =====
-- storage/queries.py: each query as a function of the database that its SELECTs read. All run
-- inside one unit of work, so they see one state.
pub mod Decorate
pub mod Counts
pub mod Recent
pub mod Search
pub mod Groups
pub mod Overhead
pub mod Military
pub mod Movements
pub mod Histogram
pub mod Watch
