-- ===== src/Auth.antt =====
-- Authentication: diracx-db/src/diracx/db/sql/auth and diracx-logic/src/diracx/logic/auth.
pub mod Db
pub mod Scope
pub mod Authorize
pub mod Exchange
pub mod Token
pub mod Flows
pub mod Routes
mod Tests
