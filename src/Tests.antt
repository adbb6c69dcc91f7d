-- ===== src/Tests.antt =====
-- The theorems applied to concrete inputs.
pub mod Links
pub mod Nodes
pub mod Relaying
pub mod Parts
pub mod Messages
pub mod Reliable
pub mod Linking
pub mod Talking
