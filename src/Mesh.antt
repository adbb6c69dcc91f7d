-- ===== src/Mesh.antt =====
-- The mesh layer: src/BITCHAT/mesh and src/BITCHAT/peer. A clock reading is an argument `now`, in
-- milliseconds.
pub mod Ttl
pub mod Dedup
pub mod Peers
pub mod Router
pub mod Discovery
pub mod Relay
