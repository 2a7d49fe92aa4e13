-- ===== src/Client.antt =====
-- packages/contract-client: the domain types over the contract's bindings.
pub mod Mandate
pub mod Ids
pub mod Events
pub mod Bindings
pub mod Calls
mod Tests
