-- ===== src/Run.antt =====
-- The run service: backend/src/backend_app/services/run_service.py. Each child models one part.
pub mod World
pub mod Wire
pub mod Chat
pub mod Markers
pub mod Compose
pub mod Handle
pub mod Finalize
pub mod Drive
pub mod Service
pub mod Threads
pub mod Emissions
pub mod Hidden
pub mod Alone
pub mod Settled
