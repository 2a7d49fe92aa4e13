-- ===== src/Relayer/Pipeline.antt =====
-- apps/relayer/src/pipeline.ts: `processChargeRequest`, one run for one charge request. Logging and
-- metrics are left out. The clock of the store is `now()`.
pub mod Outcome
pub mod Writes
pub mod Fail
pub mod Settle
pub mod Prepare
pub mod Authorize
pub mod Process
pub mod State
pub mod Ends
pub mod Failing
pub mod Settling
pub mod Preparing
pub mod Authorizing
pub mod Running
