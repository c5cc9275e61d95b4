-- ===== src/Sync.antt =====
-- The program of sync/.
pub mod FileLock
