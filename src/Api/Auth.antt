-- ===== src/Api/Auth.antt =====
-- apps/api/src/auth: how a caller proves which merchant it is.
pub mod Tables
pub mod Scopes
pub mod ApiKeys
pub mod Rotation
pub mod Sessions
pub mod Hook
pub mod Accounts
