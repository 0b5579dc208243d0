-- ===== src/Tests.antt =====
-- The theorems applied to concrete inputs.
mod Utilities
mod Recoveries
mod Reopenings
mod Values
mod Oids
mod Files
mod Chunks
mod Properties
mod Maps
mod Nodes
mod Pools
mod Runs
mod Generated
mod Streams
mod Fixtures
mod Sorting
mod Listings
mod Walks
