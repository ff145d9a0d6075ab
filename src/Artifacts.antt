-- ===== src/Artifacts.antt =====
-- go/internal/artifacts: the budget of bounded reads.
pub mod Budget
