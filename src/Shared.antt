-- ===== src/Shared.antt =====
-- packages/shared/src: what all packages share.
pub mod HexId
pub mod Money
pub mod Signature
pub mod UrlGuard
mod Tests
