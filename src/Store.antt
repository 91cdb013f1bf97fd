-- ===== src/Store.antt =====
-- The conversation store: backend/src/backend_app/repositories/conversation.py over the schema of
-- database/migrations. Each child models one group of methods.
pub mod Schema
pub mod Runs
pub mod Threads
pub mod Messages
pub mod Events
pub mod Forks
pub mod Lifecycle
pub mod Ops
pub mod Approval
pub mod Deletion
pub mod Rules
pub mod Posting
pub mod Races
pub mod Log
pub mod Preferences
