-- ===== src/Relayer.antt =====
-- apps/relayer: the worker that charges mandates and delivers webhooks.
pub mod Retry
pub mod Classify
pub mod Gateway
pub mod Webhook
pub mod Context
pub mod Delivery
pub mod Http
pub mod Scheduler
pub mod Soroban
pub mod Indexer
pub mod Pipeline
mod Tests
