-- ===== src/Scoring.antt =====
-- imbi_api/scoring/queue.py: the producers and the consumer of score recomputations.
pub mod Enqueue
pub mod Bulk
pub mod Daily
pub mod Targets
mod Tests
pub mod Group
pub mod Consumer
pub mod Dependents
mod ConsumerTests
