-- ===== src/Api.antt =====
-- apps/api: the merchant API's rules that the relayer shares.
pub mod ChargeStatus
pub mod Precheck
pub mod Routes
pub mod Reader
pub mod HttpErrors
pub mod Auth
pub mod Idempotency
pub mod DeliveryStatus
pub mod Tests
