-- ===== src/Posixpath.antt =====
-- go/internal/posixpath: lexical paths.
pub mod Normalize
pub mod Reduced
pub mod Idempotent
pub mod Absolute
pub mod Relative
pub mod Reached
