-- ===== src/Delivery.antt =====
-- The caches behind at-most-once delivery: src/protocol/DeliveredMessageCache.ts and
-- src/protocol/CompletedGroupCache.ts.
pub mod Delivered
pub mod Completed
