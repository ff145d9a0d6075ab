-- ===== src/Canonjson/Denotes.antt =====
-- go/internal/canonjson/equality.go: the number that a JSON token writes, and its exact decimal value.
use infrawright_dev.Base.Int.{ℤ, pos, negsuc}
use infrawright_dev.Canonjson.Decimals.{Groups, digits_value, negate, minus, plus}
use infrawright_dev.Canonjson.Scale.{scale}
use infrawright_dev.Base.{ℕ, zero, suc, ◌+◌, ◌-◌, ◌++◌, ◌≡◌, ◌≢◌, ◌⊎◌, ◌↔◌, refl, arith, length}

-- An integer is its rise less its fall.
abbrev pub rise : ℤ → ℕ
rise (pos a) = a
rise (negsuc a) = 0

abbrev pub fall : ℤ → ℕ
fall (pos a) = 0
fall (negsuc a) = suc a

int_same_iff : (i j : ℤ) → (i ≡ j) ↔ (rise i + fall j ≡ rise j + fall i)
int_same_iff (pos a) (pos b) = ground arith
int_same_iff (pos a) (negsuc b) = ground arith
int_same_iff (negsuc a) (pos b) = ground arith
int_same_iff (negsuc a) (negsuc b) = ground arith

negate_parts : (n : ℕ) → (rise (negate n) ≡ 0) × (fall (negate n) ≡ n)
unfolding negate
negate_parts zero = (refl, refl)
negate_parts (suc n) = (refl, refl)

plus_balance : (i : ℤ) (n : ℕ) → rise (plus i n) + fall i ≡ rise i + n + fall (plus i n)
unfolding plus
plus_balance (pos a) n = omega arith
plus_balance (negsuc a) n = ground (arith, negate_parts (suc a - n))

-- By how much an exponent is above another.
unfoldable pub shift : ℤ → ℤ → ℕ
shift e f = (rise e + fall f) - (rise f + fall e)

pub shift-plus_iff : (e f : ℤ) (t u : ℕ) → (plus e t ≡ plus f u) ↔ (shift e f + t ≡ shift f e + u)
unfolding shift
shift-plus_iff e f t u =
    ground (arith, int_same_iff (plus e t) (plus f u), plus_balance e t, plus_balance f u)

-- The digits of a token without the point, as a number, and the power of ten that goes with it.
abbrev pub digits_of : Groups → ℕ
digits_of g = digits_value 0 (g.integer_part ++ g.fraction)

abbrev pub power_of : Groups → ℤ
power_of g = minus g.exponent (length g.fraction)

-- Two tokens write the same number: zero both, or of one sign and the same after bringing both to the
-- smaller power of ten.
unfoldable pub SameNumber : Groups → Groups → Type 0
SameNumber g h =
    ((digits_of g ≡ 0) × (digits_of h ≡ 0))
    ⊎ ((digits_of g ≢ 0)
        × (digits_of h ≢ 0)
        × (g.negative ≡ h.negative)
        × (scale (shift (power_of g) (power_of h)) (digits_of g)
            ≡ scale (shift (power_of h) (power_of g)) (digits_of h)))
