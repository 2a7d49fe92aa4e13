-- ===== src/Relayer/Indexer.antt =====
-- apps/relayer/src/indexer: the index of mandates that follows the chain's events.
pub mod Sync
pub mod Keeps
pub mod Tick
pub mod Fetch
