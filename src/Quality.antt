-- ===== src/Quality.antt =====
-- host-rs/src/quality.rs and host-rs/src/quality/: capture modes and the switch between them.
pub mod Types
pub mod Switch
pub mod Preference
pub mod Edition
pub mod Client
mod Tests
