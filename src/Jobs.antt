-- ===== src/Jobs.antt =====
-- The jobs: their database (diracx-db/src/diracx/db/sql/job) and the logic of their status and submission
-- (diracx-logic/src/diracx/logic/jobs).
pub mod Db
pub mod Properties
pub mod View
pub mod Refinement
pub mod Statements
pub mod Commands
pub mod Delivery
pub mod Wms
pub mod Updates
pub mod Status
pub mod Applied
pub mod Partition
pub mod Jdl
pub mod Reschedule
pub mod Limit
pub mod Parameters
pub mod Removal
mod Tests
