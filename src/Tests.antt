-- ===== src/Tests.antt =====
-- Concrete shards, clocks, logs and tables, and the theorems of the library applied to them.
mod Data
mod Shards
mod Nodes
mod Wheels
mod Queries
mod Revisions
mod Stores
mod Services
mod Fences
mod Messages
mod Gossips
mod Requests
mod Peers
mod Calls
mod Feeds
mod Demos
