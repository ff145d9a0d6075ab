-- ===== src/Canonjson/Decimals.antt =====
-- go/internal/canonjson/equality.go: the exact decimal value of a JSON number (`exactDecimalValue`),
-- on its text. The pattern `exactDecimalToken` is matched by hand.
use Prim.Native.Nat.{◌*◌}
use infrawright_dev.Base.Int.{ℤ, pos, negsuc}
use infrawright_dev.Base.{
  ℕ, zero, suc, ◌+◌, ◌-◌, Bool, true, false, not, ◌&&◌, ◌||◌, Option, none, some, [], ◌∷◌, ◌++◌,
  if◌then◌else◌, leb, ◌==◌, length, Text, text_eq,
}

unfoldable pub is_digit : ℕ → Bool
is_digit c = leb 48 c && leb c 57

-- The digits at the front of a text, and what follows them.
unfoldable pub span_digits : Text → Text × Text
unfolding is_digit
span_digits [] = ([], [])
span_digits (c ∷ cs) =
    let (digits, rest) = span_digits cs in if is_digit c then (c ∷ digits, rest) else ([], c ∷ cs)

-- `0|[1-9][0-9]*`, of digits.
unfoldable pub is_integer_part : Text → Bool
is_integer_part [] = false
is_integer_part (c ∷ []) = true
is_integer_part (c ∷ d ∷ cs) = not (c == 48)

-- The groups of a match, the sign of the exponent apart.
pub record Groups : Type 0 where
  pub negative : Bool
  pub integer_part : Text
  pub fraction : Text
  pub exponent : ℤ

unfoldable pub digits_value : ℕ → Text → ℕ
digits_value acc [] = acc
digits_value acc (c ∷ cs) = digits_value (10 * acc + (c - 48)) cs

-- -n
unfoldable pub negate : ℕ → ℤ
negate zero = pos 0
negate (suc n) = negsuc n

-- The value of digits that take up a text, with a sign.
unfoldable pub whole_value : Bool → Text × Text → Option ℤ
unfolding digits_value negate
whole_value negative (c ∷ digits, []) =
    let n = digits_value 0 (c ∷ digits) in some (if negative then negate n else pos n)
whole_value negative _ = none

-- `[+-]?[0-9]+` at the end of a token, as `SetString` reads it.
unfoldable pub signed_value : Bool → Text → Option ℤ
unfolding span_digits whole_value
signed_value negative text = whole_value negative (span_digits text)

unfoldable pub exponent_value : Text → Option ℤ
unfolding signed_value
exponent_value [] = none
exponent_value (c ∷ cs) =
    if c == 45
    then signed_value true cs
    else if c == 43
    then signed_value false cs
    else signed_value false (c ∷ cs)

-- `(?:[eE]([+-]?[0-9]+))?$`; without an exponent it is 0.
unfoldable pub match_exponent : Text → Option ℤ
unfolding exponent_value
match_exponent [] = some (pos 0)
match_exponent (c ∷ cs) = if c == 69 || c == 101 then exponent_value cs else none

-- At least one digit.
abbrev pub some_digits : Text × Text → Option (Text × Text)
some_digits ([], tail) = none
some_digits (d ∷ digits, tail) = some (d ∷ digits, tail)

-- `(?:\.([0-9]+))?`, and what follows it.
unfoldable pub split_fraction : Text → Option (Text × Text)
unfolding span_digits
split_fraction [] = some ([], [])
split_fraction (c ∷ cs) = if c == 46 then some_digits (span_digits cs) else some ([], c ∷ cs)

-- What follows the integer part.
unfoldable pub match_rest : Bool → Text → Text → Option Groups
unfolding split_fraction match_exponent
match_rest negative integer_part rest = elim (split_fraction rest) [
  | none ↦ none
  | some (fraction, tail) ↦ elim (match_exponent tail) [
    | none ↦ none
    | some exponent ↦ some (record {
      negative = negative;
      integer_part = integer_part;
      fraction = fraction;
      exponent = exponent;
    })
  ]
]

unfoldable pub match_unsigned : Bool → Text → Option Groups
unfolding span_digits is_integer_part match_rest
match_unsigned negative text =
    let (digits, rest) = span_digits text in
    if is_integer_part digits then match_rest negative digits rest else none

unfoldable pub match_decimal : Text → Option Groups
unfolding match_unsigned
match_decimal [] = none
match_decimal (c ∷ cs) = if c == 45 then match_unsigned true cs else match_unsigned false (c ∷ cs)

-- `strings.TrimLeft(text, "0")`
unfoldable pub trim_zeros : Text → Text
trim_zeros [] = []
trim_zeros (c ∷ cs) = let rest = trim_zeros cs in if c == 48 then rest else c ∷ cs

-- The loop that takes zeros from the end, and how many it takes.
abbrev pub put_digit : ℕ → Text × ℕ → Text × ℕ
put_digit c ([], n) = if c == 48 then ([], suc n) else (c ∷ [], n)
put_digit c (d ∷ ds, n) = (c ∷ d ∷ ds, n)

unfoldable pub strip_zeros : Text → Text × ℕ
strip_zeros [] = ([], 0)
strip_zeros (c ∷ cs) = put_digit c (strip_zeros cs)

-- i - n
unfoldable pub minus : ℤ → ℕ → ℤ
unfolding negate
minus (pos a) n = if leb n a then pos (a - n) else negate (n - a)
minus (negsuc a) n = negsuc (a + n)

-- i + n
unfoldable pub plus : ℤ → ℕ → ℤ
unfolding negate
plus (pos a) n = pos (a + n)
plus (negsuc a) n = if leb (suc a) n then pos (n - suc a) else negate (suc a - n)

pub data Sign : Type 0 where
  minus_sign zero_sign plus_sign : Sign

-- `exactDecimal`
pub record ExactDecimal : Type 0 where
  pub coefficient : Text
  pub exponent : ℤ
  pub sign : Sign

abbrev pub zero_decimal : ExactDecimal
zero_decimal = record { coefficient = 48 ∷ []; exponent = pos 0; sign = zero_sign }

unfoldable pub normal_decimal : Groups → Text → ExactDecimal
unfolding strip_zeros minus plus
normal_decimal g [] = zero_decimal
normal_decimal g (c ∷ cs) =
    let (coefficient, trailing_zeros) = strip_zeros (c ∷ cs) in
    record {
      coefficient = coefficient;
      exponent = plus (minus g.exponent (length g.fraction)) trailing_zeros;
      sign = if g.negative then minus_sign else plus_sign;
    }

unfoldable pub exact_decimal_value : Text → Option ExactDecimal
unfolding match_decimal trim_zeros normal_decimal
exact_decimal_value token = elim (match_decimal token) [
  | none ↦ none
  | some g ↦ some (normal_decimal g (trim_zeros (g.integer_part ++ g.fraction)))
]

abbrev pub int_eq : ℤ → ℤ → Bool
int_eq (pos a) (pos b) = a == b
int_eq (negsuc a) (negsuc b) = a == b
int_eq _ _ = false

abbrev pub sign_eq : Sign → Sign → Bool
sign_eq minus_sign minus_sign = true
sign_eq zero_sign zero_sign = true
sign_eq plus_sign plus_sign = true
sign_eq _ _ = false

unfoldable pub exact_decimals_equal : ExactDecimal → ExactDecimal → Bool
unfolding text_eq
exact_decimals_equal left right =
    sign_eq left.sign right.sign
    && text_eq left.coefficient right.coefficient
    && int_eq left.exponent right.exponent
