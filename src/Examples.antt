-- ===== src/Examples.antt =====
-- The example programs.
pub mod Balance
pub mod Executions
