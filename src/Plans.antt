-- ===== src/Plans.antt =====
-- backend/core/plans: the stored plans, their versions and results, and what removes them.
pub mod Changes
pub mod Store
pub mod Garbage
pub mod Backups
pub mod Versions
pub mod Checkpoints
pub mod Results
pub mod Exports
pub mod Trash
