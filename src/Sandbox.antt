-- ===== src/Sandbox.antt =====
-- The sandbox store: diracx-db/src/diracx/db/sql/sandbox_metadata and
-- diracx-logic/src/diracx/logic/jobs/sandboxes.py.
pub mod Db
pub mod Mapping
pub mod Cleanup
pub mod Store
pub mod Rows
pub mod Linked
pub mod Steps
pub mod Requests
pub mod Outcomes
pub mod Uploads
mod Tests
