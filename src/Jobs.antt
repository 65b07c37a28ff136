-- ===== src/Jobs.antt =====
-- internal/jobs: bounded background jobs. Types holds the records of types.go, Definitions and
-- Input the validations, Memory the store of memory_store.go, Runner the runner of runner.go.
pub mod Types
pub mod Definitions
pub mod Input
pub mod Memory
pub mod Runner
mod Examples
