-- ===== src/Arrango.antt =====
-- backend/arrango/: this server's policy over its nodes: limits, admission, the job table and the
-- dispatch of a solve.
pub mod Limits
pub mod Admission
pub mod Jobs
pub mod Dispatch
pub mod Runner
