-- ===== src/Boot.antt =====
-- The start of the backend: the settings and the migrations of db.py, the application's lifespan of
-- app.py, the registry of agents and the choice of the stores.
pub mod Database
pub mod Registry
pub mod Lifespan
pub mod Providers
