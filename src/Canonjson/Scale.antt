-- ===== src/Canonjson/Scale.antt =====
-- Multiples by powers of ten, and the numbers that digits write.
use Prim.Native.Nat.{◌*◌}
use infrawright_dev.Canonjson.Decimals.{is_digit, digits_value}
use infrawright_dev.Base.{
  ℕ, zero, suc, ◌+◌, ◌-◌, ◌≤◌, ◌<◌, true, false, [], ◌∷◌, ◌≡◌, ◌≢◌, refl, sym, ap, arith, ◌==◌,
  length, Text, All,
}

-- x * 10^n
unfoldable pub scale : ℕ → ℕ → ℕ
scale zero x = x
scale (suc n) x = 10 * scale n x

pub scale_add : (m n k x : ℕ) → k ≡ m + n → scale m (scale n x) ≡ scale k x
unfolding scale
scale_add zero n k x h = ap (λ i. scale i x) (omega (arith, h))
scale_add (suc m) n zero x h = absurd (omega (arith, h))
scale_add (suc m) n (suc k) x h = ap (λ i. 10 * i) (scale_add m n k x (omega (arith, h)))

pub scale_ten : (n x : ℕ) → scale n (10 * x) ≡ 10 * scale n x
unfolding scale
scale_ten zero x = refl
scale_ten (suc n) x = omega (arith, scale_ten n x)

pub scale_le : (n x y : ℕ) → x ≤ y → scale n x ≤ scale n y
unfolding scale
scale_le zero x y h = h
scale_le (suc n) x y h = omega (arith, scale_le n x y h)

scale_mono : (m n x y : ℕ) → m ≤ n → 1 ≤ y → x ≤ y → scale m x ≤ scale n y
unfolding scale
scale_mono zero zero x y h p k = k
scale_mono zero (suc n) x y h p k = omega (arith, scale_mono zero n x y, h, p, k)
scale_mono (suc m) zero x y h p k = omega (arith, h)
scale_mono (suc m) (suc n) x y h p k = omega (arith, scale_mono m n x y (omega (arith, h)) p k)

-- The number is no multiple of ten.
abbrev pub NotTen : ℕ → Type 0
NotTen x = (q : ℕ) → x ≢ 10 * q

-- A number has one form as a multiple by a power of ten of a number that is no multiple of ten.
pub scale_unique : (m n x y : ℕ) → NotTen x → NotTen y → scale m x ≡ scale n y → (x ≡ y) × (m ≡ n)
unfolding scale
scale_unique zero zero x y p q h = (h, refl)
scale_unique zero (suc n) x y p q h = absurd (p (scale n y) h)
scale_unique (suc m) zero x y p q h = absurd (q (scale m x) (sym h))
scale_unique (suc m) (suc n) x y p q h =
    let k = scale_unique m n x y p q (omega (arith, h)) in (k.0, ap suc k.1)

abbrev pub AreDigits : Text → Type 0
AreDigits = All (λ c. is_digit c ≡ true)

value_lower : (a : ℕ) (xs : Text) → scale (length xs) a ≤ digits_value a xs
unfolding scale digits_value
value_lower a [] = omega arith
value_lower a (c ∷ xs) = omega (
  arith,
  value_lower (10 * a + (c - 48)) xs,
  scale_ten (length xs) a,
  scale_le (length xs) (10 * a) (10 * a + (c - 48)) (omega arith),
)

value_upper : (a : ℕ) (xs : Text) → AreDigits xs → digits_value a xs < scale (length xs) (suc a)
unfolding scale digits_value is_digit
value_upper a [] h = omega arith
value_upper a (c ∷ xs) h = ground (
  arith,
  value_upper (10 * a + (c - 48)) xs h.1,
  scale_ten (length xs) (suc a),
  scale_le (length xs) (suc (10 * a + (c - 48))) (10 * suc a),
  h.0,
)

digit_split :
    (a b c d : ℕ)
    → is_digit c ≡ true
    → is_digit d ≡ true
    → 10 * a + (c - 48) ≡ 10 * b + (d - 48)
    → (a ≡ b) × (c ≡ d)
unfolding is_digit
digit_split a b c d p q h = ground (arith, p, q, h)

cong_cons : {c d : ℕ} {xs ys : Text} → c ≡ d → xs ≡ ys → ◌≡◌ {A = Text} (c ∷ xs) (d ∷ ys)
cong_cons h k = cc

-- Digits that write the same number in the same length are the same.
value_injective :
    (a b : ℕ) (xs ys : Text)
    → AreDigits xs
    → AreDigits ys
    → length xs ≡ length ys
    → digits_value a xs ≡ digits_value b ys
    → (a ≡ b) × (xs ≡ ys)
unfolding digits_value is_digit
value_injective a b [] [] p q l h = (h, refl)
value_injective a b [] (d ∷ ys) p q l h = absurd (omega (arith, l))
value_injective a b (c ∷ xs) [] p q l h = absurd (omega (arith, l))
value_injective a b (c ∷ xs) (d ∷ ys) p q l h =
    let (head, tail) =
      value_injective (10 * a + (c - 48)) (10 * b + (d - 48)) xs ys p.1 q.1 (omega (arith, l)) h in
    let last = digit_split a b c d p.0 q.0 head in (last.0, cong_cons last.1 tail)

-- The text does not begin with a zero.
abbrev pub IsTrimmed : Text → Type 0
IsTrimmed [] = Unit
IsTrimmed (c ∷ cs) = (c == 48) ≡ false

longer :
    (xs ys : Text)
    → AreDigits xs
    → AreDigits ys
    → IsTrimmed xs
    → digits_value 0 xs ≡ digits_value 0 ys
    → length xs ≤ length ys
unfolding digits_value is_digit
longer [] ys p q t h = omega arith
longer (c ∷ cs) ys p q t h = ground (
  arith,
  value_lower (0 + (c - 48)) cs,
  value_upper 0 ys q,
  scale_mono (length ys) (length cs) 1 (0 + (c - 48)),
  h,
  t,
  p.0,
)

-- Digits that write the same number and do not begin with a zero are the same.
pub trimmed_injective :
    (xs ys : Text)
    → AreDigits xs
    → AreDigits ys
    → IsTrimmed xs
    → IsTrimmed ys
    → digits_value 0 xs ≡ digits_value 0 ys
    → xs ≡ ys
trimmed_injective xs ys p q t u h =
    (value_injective 0 0 xs ys p q (omega (arith, longer xs ys p q t h, longer ys xs q p u (sym h)))
      h).1
