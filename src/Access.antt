-- ===== src/Access.antt =====
-- The access policies of the job routes (diracx-routers/src/diracx/routers/jobs/access_policies.py).
pub mod Jobs
pub mod Rights
pub mod Owned
pub mod Sandboxes
pub mod SandboxOwners
mod Tests
