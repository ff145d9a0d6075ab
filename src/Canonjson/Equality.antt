-- ===== src/Canonjson/Equality.antt =====
-- go/internal/canonjson/equality.go: `JSONEqual`, `TerraformJSONEqual` and
-- `TerraformJSONExactlyEqual`. Binary floats are an argument: `ParseFloat`, their equality, and the
-- integer that a finite integral float is. A sorted walk over the keys of an object answers as a walk
-- in the order of its fields does.
use infrawright_dev.Base.Int.{ℤ, pos}
use infrawright_dev.Canonjson.Decimals.{
  span_digits, is_integer_part, digits_value, negate, int_eq, ExactDecimal, exact_decimal_value,
  exact_decimals_equal,
}
use infrawright_dev.Canonjson.Values.{
  Json, null, boolean, number, string, array, object, Items, no_items, item, Fields, no_fields,
  field, lookup, field_keys, Equality,
}
use infrawright_dev.Base.Sorting.{stable_sort}
use infrawright_dev.Base.{
  ℕ, Bool, true, false, not, ◌&&◌, ◌||◌, Option, none, some, List, [], ◌∷◌, if◌then◌else◌, ◌==◌,
  Text, text_eq, text_lt,
}

-- Binary floats: `strconv.ParseFloat`, `==`, and the value of a float that is a finite integer.
pub record Floats : Type 1 where
  pub Float : Type 0
  pub parse_float : Text → Float
  pub float_eq : Float → Float → Bool
  pub as_integer : Float → Option ℤ

unfoldable pub same_texts : List Text → List Text → Bool
unfolding text_eq
same_texts [] [] = true
same_texts (a ∷ left) (b ∷ right) = text_eq a b && same_texts left right
same_texts _ _ = false

unfoldable pub same_keys : Fields → Fields → Bool
unfolding same_texts
same_keys fs gs =
    same_texts (stable_sort text_lt (field_keys fs)) (stable_sort text_lt (field_keys gs))

abbrev pub bool_eq : Bool → Bool → Bool
bool_eq true b = b
bool_eq false b = not b

abbrev pub is_boolean : Json → Bool
is_boolean (boolean b) = true
is_boolean _ = false

abbrev pub same_boolean : Json → Json → Bool
same_boolean (boolean a) (boolean b) = bool_eq a b
same_boolean _ _ = false

-- `numberEqual`: none when neither value is a number.
abbrev pub NumberEqual : Type 0
NumberEqual = Json → Json → Option Bool

module _ (bool_is_numeric : Bool) (number_equal : NumberEqual) where
  -- The tests in front of those on the shape of the values.
  unfoldable pub judge : Json → Json → Bool → Bool
  judge left right same =
      if not bool_is_numeric && (is_boolean left || is_boolean right)
      then same_boolean left right
      else elim (number_equal left right) [ some equal ↦ equal | none ↦ same ]

  unfoldable mutual
    unfolding judge same_keys lookup text_eq

    pub compare_json : Json → Json → Bool
    compare_json null null = judge null null true
    compare_json (boolean a) (boolean b) = judge (boolean a) (boolean b) (bool_eq a b)
    compare_json (number a) (number b) = judge (number a) (number b) (text_eq a b)
    compare_json (string a) (string b) = judge (string a) (string b) (text_eq a b)
    compare_json (array vs) (array ws) = judge (array vs) (array ws) (compare_items vs ws)
    compare_json (object fs) (object gs) =
        judge (object fs) (object gs) (same_keys fs gs && compare_fields fs gs)
    compare_json left right = judge left right false

    -- Arrays of different lengths are not equal.
    pub compare_items : Items → Items → Bool
    compare_items no_items no_items = true
    compare_items (item v vs) (item w ws) = compare_json v w && compare_items vs ws
    compare_items _ _ = false

    pub compare_fields : Fields → Fields → Bool
    compare_fields no_fields right = true
    compare_fields (field k v rest) right =
        compare_json v (lookup k right) && compare_fields rest right

-- `exactNumberEqual`
unfoldable pub exact_value : Json → Option ExactDecimal
unfolding exact_decimal_value
exact_value (number token) = exact_decimal_value token
exact_value _ = none

-- A value that is no number equals none that is one.
abbrev pub equal_values {ℓ} : {A : Type ℓ} → (A → A → Bool) → Option A → Option A → Option Bool
equal_values equal (some a) (some b) = some (equal a b)
equal_values equal none none = none
equal_values equal _ _ = some false

unfoldable pub exact_number_equal : NumberEqual
unfolding exact_value exact_decimals_equal
exact_number_equal left right =
    equal_values exact_decimals_equal (exact_value left) (exact_value right)

module _ (fl : Floats) where
  pub data Numeric : Type 0 where
    integer : ℤ → Numeric
    float : fl.Float → Numeric

  abbrev pub whole_integer : Text × Text → Option ℕ
  whole_integer (digits, []) = if is_integer_part digits then some (digits_value 0 digits) else none
  whole_integer _ = none

  -- The text of an integer: `jsonIntegerToken`, and `SetString`.
  unfoldable pub integer_digits : Text → Option ℕ
  unfolding span_digits is_integer_part digits_value
  integer_digits text = whole_integer (span_digits text)

  unfoldable pub integer_token : Text → Option ℤ
  unfolding integer_digits negate
  integer_token [] = none
  integer_token (c ∷ cs) =
      if c == 45
      then elim (integer_digits cs) [ some n ↦ some (negate n) | none ↦ none ]
      else elim (integer_digits (c ∷ cs)) [ some n ↦ some (pos n) | none ↦ none ]

  unfoldable pub numeric_value : Json → Option Numeric
  unfolding integer_token
  numeric_value (boolean b) = some (integer (pos (if b then 1 else 0)))
  numeric_value (number token) = elim (integer_token token) [
    | some n ↦ some (integer n)
    | none ↦ some (float (fl.parse_float token))
  ]
  numeric_value _ = none

  abbrev pub integer_is_float : ℤ → fl.Float → Bool
  integer_is_float n f = elim (fl.as_integer f) [ some m ↦ int_eq m n | none ↦ false ]

  unfoldable pub numerically_equal : Numeric → Numeric → Bool
  numerically_equal (integer a) (integer b) = int_eq a b
  numerically_equal (float a) (float b) = fl.float_eq a b
  numerically_equal (integer a) (float b) = integer_is_float a b
  numerically_equal (float a) (integer b) = integer_is_float b a

  unfoldable pub python_number_equal : NumberEqual
  unfolding numeric_value numerically_equal
  python_number_equal left right =
      equal_values numerically_equal (numeric_value left) (numeric_value right)

  unfoldable pub json_equal : Json → Json → Bool
  unfolding compare_json python_number_equal
  json_equal = compare_json true python_number_equal

  unfoldable pub terraform_json_equal : Json → Json → Bool
  unfolding compare_json python_number_equal
  terraform_json_equal = compare_json false python_number_equal

unfoldable pub terraform_json_exactly_equal : Json → Json → Bool
unfolding compare_json exact_number_equal
terraform_json_exactly_equal = compare_json false exact_number_equal

-- The two equalities that other packages call.
abbrev pub equalities : Floats → Equality
equalities fl = record { json_equal = json_equal fl; exactly_equal = terraform_json_exactly_equal }
