-- ===== src/Base/Int.antt =====
-- Signed integers over the native numbers, with the comparisons that the source uses.
use Prim.Native.Nat.{ℕ, ◌≤◌}
use mathlib.Core.Bool.{Bool, true, false}
use infrawright_dev.Base.Tests.{leb}

-- `negsuc n` is -(n + 1).
pub data ℤ : Type 0 where
  pos : ℕ → ℤ
  negsuc : ℕ → ℤ

abbrev pub le_int : ℤ → ℤ → Bool
le_int (pos a) (pos b) = leb a b
le_int (pos a) (negsuc b) = false
le_int (negsuc a) (pos b) = true
le_int (negsuc a) (negsuc b) = leb b a

-- `a <= n` for a natural number `a`, as a statement.
abbrev pub Within : ℕ → ℤ → Type 0
Within a (pos b) = a ≤ b
Within a (negsuc b) = ⊥
