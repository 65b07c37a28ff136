-- ===== src/Archaeology.antt =====
-- The admission of native archaeology reports: internal/store/project_archaeology_policy.go, the tests
-- of internal/store/project_archaeology_runner.go and historical_import.go that it calls, and the policy of
-- internal/domain/project_archaeology.go. The JSON decoder is a parameter.
pub mod Types
pub mod Texts
pub mod StableIds
pub mod Proposal
pub mod Outcome
mod Examples
