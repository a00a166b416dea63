-- ===== src/Maintenance.antt =====
-- src/imbi_api/maintenance: global maintenance runs, distributed over the API instances.
pub mod Status
pub mod State
pub mod System
pub mod Commands
pub mod Runs
pub mod Worker
pub mod Stale
mod Tests
mod CommandTests
