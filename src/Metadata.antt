-- ===== src/Metadata.antt =====
-- go/internal/metadata: the drift policy of a pack.
pub mod DriftPolicy
pub mod Exact
pub mod Tolerance
pub mod FirstMatch
pub mod Marks
pub mod PolicyPath
pub mod SafePath
pub mod Escapes
pub mod ParsedPath
pub mod WrittenPath
pub mod Stale
pub mod Listed
pub mod Unused
