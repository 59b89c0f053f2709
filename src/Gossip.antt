-- ===== src/Gossip.antt =====
-- backend/internal/gossip: how nodes tell each other what has changed.
pub mod Nonces
pub mod Wire
pub mod Accept
pub mod Replay
pub mod Delivery
pub mod Canonical
pub mod Http
pub mod Pages
pub mod Complete
pub mod Sync
pub mod Idle
pub mod Peers
pub mod Engine
pub mod Rounds
pub mod Turns
pub mod Delta
pub mod Select
pub mod Radio
pub mod Dispatch
pub mod Life
pub mod Ready
pub mod Answer
