-- ===== src/Canonjson/Exact.antt =====
-- `TerraformJSONExactlyEqual` on numbers.
use infrawright_dev.Canonjson.Alike.{number_key, Alike, terraform_json_exactly_equal-Alike_iff}
use infrawright_dev.Canonjson.Decimals.{
  is_digit, span_digits, is_integer_part, some_digits, split_fraction, match_exponent, match_rest,
  match_unsigned, match_decimal, Groups, ExactDecimal, trim_zeros, normal_decimal,
  exact_decimal_value,
}
use infrawright_dev.Canonjson.Denotes.{SameNumber}
use infrawright_dev.Canonjson.Equality.{terraform_json_exactly_equal}
use infrawright_dev.Canonjson.Normal.{trim-value, trim-IsTrimmed, trim-AreDigits}
use infrawright_dev.Canonjson.Scale.{AreDigits}
use infrawright_dev.Canonjson.Unique.{IsNormal, normal_decimal-IsNormal, normal_iff}
use infrawright_dev.Canonjson.Values.{number}
use infrawright_dev.Base.{
  Bool, true, false, Option, none, some, [], ◌∷◌, ◌++◌, ◌≡◌, ◌⊎◌, ◌↔◌, inl, inr, refl, sym, ◌∙◌, ap,
  subst, ◌==◌, Text, All-append, Bool-cases, Option-cases,
}

span-AreDigits : (text : Text) → AreDigits (span_digits text).0
unfolding span_digits
span-AreDigits [] = tt
span-AreDigits (c ∷ cs) = elim (Bool-cases (is_digit c)) [
  | inl digit ↦ rw digit (digit, span-AreDigits cs)
  | inr other ↦ rw other tt
]

-- The groups of a match are digits.
Digital : Option Groups → Type 0
Digital none = Unit
Digital (some g) = AreDigits (g.integer_part ++ g.fraction)

FractionDigits : Option (Text × Text) → Type 0
FractionDigits none = Unit
FractionDigits (some (fraction, tail)) = AreDigits fraction

some_digits-FractionDigits : (r : Text × Text) → AreDigits r.0 → FractionDigits (some_digits r)
unfolding FractionDigits
some_digits-FractionDigits ([], tail) h = tt
some_digits-FractionDigits (d ∷ ds, tail) h = h

split-FractionDigits : (text : Text) → FractionDigits (split_fraction text)
unfolding split_fraction FractionDigits
split-FractionDigits [] = tt
split-FractionDigits (c ∷ cs) = elim (Bool-cases (c == 46)) [
  | inl point ↦ rw point (some_digits-FractionDigits (span_digits cs) (span-AreDigits cs))
  | inr other ↦ rw other tt
]

match_rest-Digital :
    (negative : Bool) (digits rest : Text)
    → AreDigits digits
    → Digital (match_rest negative digits rest)
unfolding match_rest Digital FractionDigits
match_rest-Digital negative digits rest h = elim (Option-cases (split_fraction rest)) [
  | inl nothing ↦ rw (nothing, match_rest) tt
  | inr ((fraction, tail), e) ↦ elim (Option-cases (match_exponent tail)) [
    | inl nothing ↦ rw (e, nothing, match_rest) tt
    | inr (exponent, k) ↦
        rw (e, k, match_rest)
          (All-append (λ c. is_digit c ≡ true) digits fraction h
            (subst FractionDigits e (split-FractionDigits rest)))
  ]
]

match_unsigned-Digital : (negative : Bool) (text : Text) → Digital (match_unsigned negative text)
unfolding match_unsigned Digital
match_unsigned-Digital negative text = elim (Bool-cases (is_integer_part (span_digits text).0)) [
  | inl whole ↦
      rw whole (
        match_rest-Digital negative (span_digits text).0 (span_digits text).1 (span-AreDigits text))
  | inr other ↦ rw other tt
]

match_decimal-Digital : (token : Text) → Digital (match_decimal token)
unfolding match_decimal Digital
match_decimal-Digital [] = tt
match_decimal-Digital (c ∷ cs) = elim (Bool-cases (c == 45)) [
  | inl sign ↦ rw sign (match_unsigned-Digital true cs)
  | inr other ↦ rw other (match_unsigned-Digital false (c ∷ cs))
]

-- The exact decimal value of a token.
decimal_of : Groups → ExactDecimal
decimal_of g = normal_decimal g (trim_zeros (g.integer_part ++ g.fraction))

decimal_of-IsNormal :
    (token : Text) (g : Groups) → match_decimal token ≡ some g → IsNormal g (decimal_of g)
unfolding decimal_of Digital
decimal_of-IsNormal token g h =
    let text = g.integer_part ++ g.fraction in
    normal_decimal-IsNormal g (trim_zeros text) (trim-AreDigits text digits) (trim-IsTrimmed text)
      (sym (trim-value text))
  where
    digits : AreDigits (g.integer_part ++ g.fraction)
    digits = subst Digital h (match_decimal-Digital token)

number_key-decimal_of :
    (token : Text) (g : Groups)
    → match_decimal token ≡ some g
    → number_key token ≡ inl (decimal_of g)
unfolding number_key decimal_of exact_decimal_value
number_key-decimal_of token g h = rw (h, exact_decimal_value) refl

inl-injective : {d e : ExactDecimal} → ◌≡◌ {A = ExactDecimal ⊎ Text} (inl d) (inl e) → d ≡ e
inl-injective h = cc

-- TerraformJSONExactlyEqual holds of two JSON numbers exactly when they write the same number, however
-- they are spelled: both zero, or of one sign and with the same digits once both are brought to the
-- smaller power of ten.
pub terraform_json_exactly_equal-SameNumber_iff :
    (a b : Text) (g h : Groups)
    → match_decimal a ≡ some g
    → match_decimal b ≡ some h
    → (terraform_json_exactly_equal (number a) (number b) ≡ true) ↔ SameNumber g h
unfolding Alike
terraform_json_exactly_equal-SameNumber_iff a b g h p q =
    let alike = terraform_json_exactly_equal-Alike_iff (number a) (number b) in
    let left = number_key-decimal_of a g p in
    let right = number_key-decimal_of b h q in
    let normal =
      normal_iff g h (decimal_of g) (decimal_of h) (decimal_of-IsNormal a g p)
        (decimal_of-IsNormal b h q) in
    (
      (λ e. normal.0 (inl-injective (sym left ∙ alike.0 e ∙ right))),
      (λ s. alike.1 (left ∙ ap inl (normal.1 s) ∙ sym right)),
    )
