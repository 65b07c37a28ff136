-- ===== src/Ops.antt =====
-- internal/opsfs: the grammar of operator paths and of checksum files.
pub mod Types
pub mod Paths
pub mod Checksum
mod Examples
