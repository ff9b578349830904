-- ===== src/Logger.antt =====
-- backend/common/logger/: what the server keeps of its log.
pub mod Ring
