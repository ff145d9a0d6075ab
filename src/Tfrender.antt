-- ===== src/Tfrender.antt =====
-- go/internal/tfrender: generated import blocks and the moves derived from them.
pub mod Quoted
pub mod Imports
pub mod Moves
