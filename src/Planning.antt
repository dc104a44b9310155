-- ===== src/Planning.antt =====
-- backend/planning/domain: the planning aggregate and the review workflow.
pub mod States
pub mod Numbers
pub mod Aggregate
pub mod Invariant
pub mod Plan
pub mod Review
