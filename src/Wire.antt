-- ===== src/Wire.antt =====
-- host-rs/src/wire.rs
pub mod Bytes
pub mod Kinds
pub mod Header
pub mod PrepareQuality
pub mod QualityResult
pub mod Epoch
pub mod Capabilities
pub mod Label
pub mod ClientAuthResult
pub mod ClientChallenge
pub mod ClientAuth
pub mod PairingInfo
pub mod Lengths
pub mod Messages
mod Tests
