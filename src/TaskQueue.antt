-- ===== src/TaskQueue.antt =====
-- The task queues: their database (diracx-db/src/diracx/db/sql/task_queue) and the shares of their
-- priorities (diracx-logic/src/diracx/logic/task_queues/priority.py).
pub mod Db
pub mod Dicts
pub mod Shares
pub mod Recalculate
pub mod Bounds
pub mod Grouping
pub mod Removal
mod Tests
