-- ===== src/Queue.antt =====
-- The work queues on Valkey streams: imbi_api/commit_sync, pr_sync and deployment_sync.
pub mod Outside
pub mod Sync
pub mod Status
pub mod CommitSync
pub mod PrSync
pub mod DeploymentSync
pub mod Jobs
mod Tests
