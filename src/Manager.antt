-- ===== src/Manager.antt =====
-- The run manager: backend/src/backend_app/api/run_manager.py.
pub mod Pump
pub mod Tail
pub mod Control
pub mod Rows
pub mod Replay
pub mod Pumped
pub mod Relay
pub mod Reclaim
