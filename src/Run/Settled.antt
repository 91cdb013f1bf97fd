-- ===== src/Run/Settled.antt =====
-- How a drive leaves its run while no other instance acts and the database answers.
pub mod Chunks
pub mod Ends
pub mod Stops
pub mod Loop
pub mod Outcome
