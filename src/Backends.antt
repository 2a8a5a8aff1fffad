-- ===== src/Backends.antt =====
-- custom_components/skywatch/backends: sources of aircraft events.
pub mod Base
pub mod Fr24
