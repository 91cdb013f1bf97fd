-- ===== src/Examples.antt =====
-- The theorems at work on a sample conversation, on requests and on a configuration.
mod Sample
mod Histories
mod Drives
mod Logs
mod Texts
mod Requests
mod Settings
mod Ingestion
