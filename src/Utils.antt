-- ===== src/Utils.antt =====
-- The helpers of diracx-core/src/diracx/core/utils.py.
pub mod Batched
pub mod Cache
mod Tests
