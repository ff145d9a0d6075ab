-- ===== src/Envgen.antt =====
-- go/internal/envgen: the dependency closure of deployment roots.
pub mod Closure
pub mod Pending
pub mod Selected
