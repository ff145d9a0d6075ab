-- ===== src/Assessment.antt =====
-- go/internal/assessment: the classification of a plan against a drift policy.
pub mod Paths
pub mod Sets
pub mod Diff
pub mod Changes
pub mod Update
pub mod Classify
pub mod Agreement
pub mod Acceptance
pub mod Verdict
pub mod Permitted
pub mod Balance
pub mod Explained
pub mod Reported
pub mod Redaction
pub mod Findings
pub mod Differs
pub mod Marked
pub mod Complete
