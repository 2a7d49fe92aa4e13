-- ===== src/Web.antt =====
-- apps/web: the logic behind the checkout and the payer's dashboard.
pub mod Display
pub mod MandateStatus
pub mod Terms
pub mod Checkout
pub mod Revoke
mod Tests
