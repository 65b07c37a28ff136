-- ===== src/Core.antt =====
-- internal/store/project_core_write.go and project_core_helpers.go: the durable writes of projects,
-- milestones, tasks and wiki pages, with their replay records, revisions and relations.
pub mod Types
pub mod Values
pub mod Relations
pub mod Rows
pub mod Projects
pub mod Tasks
pub mod Wiki
pub mod Commands
pub mod Effects
pub mod Invariant
pub mod Writes
mod Examples
