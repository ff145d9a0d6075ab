-- ===== src/Refedges.antt =====
-- go/internal/refedges/refedges.go: the cross-state reference edges between deployment roots.
pub mod SetMaps
pub mod Cycles
pub mod Resolve
pub mod Walks
pub mod Visited
pub mod Depth
pub mod Acyclic
pub mod Qualified
pub mod Declared
pub mod Covered
pub mod Recorded
pub mod Resolved
pub mod Reported
