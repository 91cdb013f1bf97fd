-- ===== src/Api.antt =====
-- The HTTP API: backend/src/backend_app/api/app.py.
pub mod Outcome
pub mod Guards
pub mod Limit
pub mod Threads
pub mod Runs
pub mod Settings
pub mod Invert
pub mod Body
pub mod Accepted
pub mod Selected
pub mod Scope
pub mod Deleting
