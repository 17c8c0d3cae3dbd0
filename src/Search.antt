-- ===== src/Search.antt =====
-- The search of jobs (diracx-db/src/diracx/db/sql/utils/base.py, diracx-logic/src/diracx/logic/jobs/query.py).
pub mod Times
pub mod Filters
pub mod Query
pub mod Rows
pub mod OwnJobs
mod Tests
