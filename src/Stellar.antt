-- ===== src/Stellar.antt =====
-- packages/stellar: the contract's error codes.
pub mod Authorization
pub mod Errors
pub mod Tests
