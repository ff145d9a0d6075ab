-- ===== src/Canonjson.antt =====
-- go/internal/canonjson: the values that plans and policies are made of.
pub mod Values
pub mod Decimals
pub mod Equality
pub mod Alike
pub mod Equivalence
pub mod Scale
pub mod Normal
pub mod Denotes
pub mod Unique
pub mod Exact
