-- ===== src/Canonjson/Alike.antt =====
-- go/internal/canonjson/equality.go: `TerraformJSONExactlyEqual` and the shape of the values.
use infrawright_dev.Base.Int.{ℤ, pos, negsuc}
use infrawright_dev.Canonjson.Decimals.{
  Sign, int_eq, sign_eq, ExactDecimal, exact_decimal_value, exact_decimals_equal,
}
use infrawright_dev.Canonjson.Equality.{
  same_texts, same_keys, bool_eq, judge, compare_json, compare_items, compare_fields, exact_value,
  exact_number_equal, terraform_json_exactly_equal, equal_values,
}
use infrawright_dev.Canonjson.Values.{
  Json, null, boolean, number, string, array, object, Items, no_items, item, Fields, no_fields,
  field, lookup, field_keys,
}
use infrawright_dev.Base.Sorting.{stable_sort}
use infrawright_dev.Base.{
  Bool, true, false, ◌&&◌, Option, none, some, List, ◌∷◌, ◌≡◌, ◌↔◌, ◌⊎◌, inl, inr, refl, arith,
  Text, text_eq, text_eq_iff, text_lt,
}

int_eq_iff : (a b : ℤ) → (int_eq a b ≡ true) ↔ (a ≡ b)
int_eq_iff (pos a) (pos b) = ground arith
int_eq_iff (negsuc a) (negsuc b) = ground arith
int_eq_iff _ _ = ground arith

sign_eq_iff : (a b : Sign) → (sign_eq a b ≡ true) ↔ (a ≡ b)
sign_eq_iff _ _ = ground arith

exact_decimals_equal_iff : (a b : ExactDecimal) → (exact_decimals_equal a b ≡ true) ↔ (a ≡ b)
unfolding exact_decimals_equal
exact_decimals_equal_iff a b = ground (
  arith,
  sign_eq_iff a.sign b.sign,
  text_eq_iff a.coefficient b.coefficient,
  int_eq_iff a.exponent b.exponent,
)

-- What a number stands for: its exact value, or its text if it is no number.
abbrev key_of : Option ExactDecimal → Text → ExactDecimal ⊎ Text
key_of (some d) a = inl d
key_of none a = inr a

unfoldable pub number_key : Text → ExactDecimal ⊎ Text
number_key a = key_of (exact_decimal_value a) a

unfoldable mutual
  pub Alike : Json → Json → Type 0
  Alike null null = Unit
  Alike (boolean a) (boolean b) = a ≡ b
  Alike (number a) (number b) = number_key a ≡ number_key b
  Alike (string a) (string b) = a ≡ b
  Alike (array vs) (array ws) = AlikeItems vs ws
  Alike (object fs) (object gs) =
      (stable_sort text_lt (field_keys fs) ≡ stable_sort text_lt (field_keys gs))
      × AlikeFields fs gs
  Alike _ _ = ⊥

  pub AlikeItems : Items → Items → Type 0
  AlikeItems no_items no_items = Unit
  AlikeItems (item v vs) (item w ws) = Alike v w × AlikeItems vs ws
  AlikeItems _ _ = ⊥

  -- The value of each field is like that of the other object at its key.
  pub AlikeFields : Fields → Fields → Type 0
  AlikeFields no_fields right = Unit
  AlikeFields (field k v rest) right = Alike v (lookup k right) × AlikeFields rest right

key_of_iff :
    (o p : Option ExactDecimal) (a b : Text)
    → (elim (equal_values exact_decimals_equal o p) [ some e ↦ e | none ↦ text_eq a b ] ≡ true)
      ↔ (key_of o a ≡ key_of p b)
key_of_iff (some x) (some y) a b = ground (arith, exact_decimals_equal_iff x y)
key_of_iff none none a b = ground (arith, text_eq_iff a b)
key_of_iff _ _ a b = ground arith

same_texts_iff : (as_left bs : List Text) → (same_texts as_left bs ≡ true) ↔ (as_left ≡ bs)
unfolding same_texts
same_texts_iff (a ∷ as_left) (b ∷ bs) = ground (arith, same_texts_iff as_left bs, text_eq_iff a b)
same_texts_iff _ _ = ground arith

-- A number equals nothing of another shape.
number_left :
    (o : Option ExactDecimal)
    → elim (equal_values exact_decimals_equal o none) [ some e ↦ e | none ↦ false ] ≡ false
number_left (some d) = refl
number_left none = refl

number_right :
    (o : Option ExactDecimal)
    → elim (equal_values exact_decimals_equal none o) [ some e ↦ e | none ↦ false ] ≡ false
number_right (some d) = refl
number_right none = refl

bool_eq_iff : (a b : Bool) → (bool_eq a b ≡ true) ↔ (a ≡ b)
bool_eq_iff _ _ = ground arith

and_both_iff :
    {P Q : Type 0} (x y : Bool) → (x ≡ true) ↔ P → (y ≡ true) ↔ Q → ((x && y) ≡ true) ↔ (P × Q)
and_both_iff true y f g = (λ h. (f.0 refl, g.0 h), λ h. g.1 h.1)
and_both_iff false y f g = (λ h. cc, λ h. f.1 h.0)

abbrev equal : Json → Json → Bool
equal = compare_json false exact_number_equal

number_iff : (a b : Text) → (equal (number a) (number b) ≡ true) ↔ (number_key a ≡ number_key b)
unfolding compare_json exact_number_equal number_key
number_iff a b = key_of_iff (exact_decimal_value a) (exact_decimal_value b) a b

mutual
  unfolding compare_json exact_number_equal exact_value Alike same_keys judge number_key

  exact_iff : (l r : Json) → (equal l r ≡ true) ↔ Alike l r
  exact_iff (number a) (number b) = number_iff a b
  exact_iff (array vs) (array ws) = items_iff vs ws
  exact_iff (object fs) (object gs) =
      and_both_iff (same_keys fs gs) (compare_fields false exact_number_equal fs gs)
        (same_texts_iff (stable_sort text_lt (field_keys fs)) (stable_sort text_lt (field_keys gs)))
        (fields_iff fs gs)
  exact_iff (string a) (string b) = ground (arith, text_eq_iff a b)
  exact_iff (boolean a) (boolean b) = ground (arith, bool_eq_iff a b)
  exact_iff null null = ground arith
  exact_iff (number a) _ = ground (arith, number_left (exact_decimal_value a))
  exact_iff _ (number b) = ground (arith, number_right (exact_decimal_value b))
  exact_iff _ _ = ground arith

  items_iff :
      (vs ws : Items) → (compare_items false exact_number_equal vs ws ≡ true) ↔ AlikeItems vs ws
  items_iff no_items no_items = ground arith
  items_iff (item v vs) (item w ws) =
      and_both_iff (equal v w) (compare_items false exact_number_equal vs ws) (exact_iff v w)
        (items_iff vs ws)
  items_iff _ _ = ground arith

  fields_iff :
      (fs gs : Fields) → (compare_fields false exact_number_equal fs gs ≡ true) ↔ AlikeFields fs gs
  fields_iff no_fields gs = ground arith
  fields_iff (field k v rest) gs =
      and_both_iff (equal v (lookup k gs)) (compare_fields false exact_number_equal rest gs)
        (exact_iff v (lookup k gs)) (fields_iff rest gs)

-- TerraformJSONExactlyEqual holds exactly of values of the same shape: booleans and strings are the
-- same, numbers have the same exact decimal value, arrays are alike item by item, and objects have the
-- same keys and at each key values that are alike.
pub terraform_json_exactly_equal-Alike_iff :
    (l r : Json) → (terraform_json_exactly_equal l r ≡ true) ↔ Alike l r
unfolding terraform_json_exactly_equal
terraform_json_exactly_equal-Alike_iff l r = exact_iff l r
