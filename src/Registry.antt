-- ===== src/Registry.antt =====
-- backend/internal/registry: the sharded store of service instances and tombstone fences.
pub mod Entry
pub mod Compare
pub mod Shard
pub mod Lifecycle
pub mod Find
pub mod Window
pub mod Store
pub mod Entries
pub mod Query
pub mod Digest
pub mod Counting
pub mod Exchange
pub mod Listing
pub mod Rank
pub mod Cell
pub mod Mark
pub mod Stored
pub mod Apply
pub mod Collect
pub mod Maps
pub mod Project
pub mod Good
pub mod Run
pub mod Shape
pub mod Keeps
pub mod Converge
