-- ===== src/Solve.antt =====
-- solveclient/: what a solve asks of a node and what its stream brings back.
pub mod Capacity
pub mod Baseline
pub mod Stream
pub mod Best
