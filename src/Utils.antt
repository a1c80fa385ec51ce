-- ===== src/Utils.antt =====
-- The log of the server, include/Utils and src/Utils.
pub mod LogEntry
pub mod Logger
pub mod HttpLogGuard
