-- ===== src/Reliability.antt =====
-- Reliable delivery to one peer: src/protocol/ReliabilityTypes.ts and ReliabilityManager.ts.
pub mod State
pub mod Sender
pub mod Retransmit
pub mod System
pub mod Invariant
pub mod Waiting
pub mod Timeouts
pub mod Drain
pub mod Rounds
pub mod Frames
pub mod Payloads
