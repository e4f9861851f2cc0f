-- ===== src/Snapshot.antt =====
-- snapshot.c.
pub mod Update
pub mod Transfer
