-- ===== src/Canonjson/Unique.antt =====
-- go/internal/canonjson/equality.go: exact decimal values of two tokens, compared.
use infrawright_dev.Canonjson.Decimals.{
  Groups, ExactDecimal, Sign, minus_sign, zero_sign, plus_sign, zero_decimal, digits_value, plus,
  strip_zeros, normal_decimal,
}
use infrawright_dev.Canonjson.Normal.{IsStripped, strip-IsStripped, put_digit-head}
use infrawright_dev.Canonjson.Scale.{
  scale, scale_add, scale_unique, NotTen, AreDigits, IsTrimmed, trimmed_injective,
}
use infrawright_dev.Canonjson.Denotes.{shift, shift-plus_iff, digits_of, power_of, SameNumber}
use infrawright_dev.Base.{
  ℕ, zero, suc, ◌+◌, Bool, true, false, [], ◌∷◌, ◌≡◌, ◌≢◌, ◌⊎◌, ◌↔◌, inl, inr, refl, sym, ◌∙◌, ap,
  subst, arith, if◌then◌else◌, Text,
}

abbrev pub sign_of : Bool → Sign
sign_of negative = if negative then minus_sign else plus_sign

-- The decimal value of a token: zero, or its digits without the zeros at both ends.
pub record IsNonzero (g : Groups) (d : ExactDecimal) (t : ℕ) : Type 0 where
  pub value : digits_of g ≡ scale t (digits_value 0 d.coefficient)
  pub ends : NotTen (digits_value 0 d.coefficient)
  pub digits : AreDigits d.coefficient
  pub trimmed : IsTrimmed d.coefficient
  pub power : d.exponent ≡ plus (power_of g) t
  pub sign : d.sign ≡ sign_of g.negative

unfoldable pub IsNormal : Groups → ExactDecimal → Type 0
IsNormal g d = ((digits_of g ≡ 0) × (d ≡ zero_decimal)) ⊎ ((t : ℕ) × IsNonzero g d t)

scale-zero : (n x : ℕ) → scale n x ≡ 0 → x ≡ 0
unfolding scale
scale-zero zero x h = h
scale-zero (suc n) x h = scale-zero n x (omega (arith, h))

IsNonzero-ne : (g : Groups) (d : ExactDecimal) (t : ℕ) → IsNonzero g d t → digits_of g ≢ 0
IsNonzero-ne g d t n h = n.ends 0 (scale-zero t _ (sym n.value ∙ h))

pub normal_decimal-IsNormal :
    (g : Groups) (text : Text)
    → AreDigits text
    → IsTrimmed text
    → digits_of g ≡ digits_value 0 text
    → IsNormal g (normal_decimal g text)
unfolding normal_decimal IsNormal digits_value IsStripped strip_zeros
normal_decimal-IsNormal g [] h k e = inl (e, refl)
normal_decimal-IsNormal g (c ∷ cs) h k e = inr ((strip_zeros (c ∷ cs)).1, nonzero)
  where
    stripped : IsStripped (c ∷ cs) (strip_zeros (c ∷ cs))
    stripped = strip-IsStripped (c ∷ cs) h

    head : (ds : Text) × ((strip_zeros (c ∷ cs)).0 ≡ c ∷ ds)
    head = put_digit-head c (strip_zeros cs) k

    ends_of :
        ((strip_zeros (c ∷ cs)).0 ≡ [])
          ⊎ ((acc : ℕ) → NotTen (digits_value acc (strip_zeros (c ∷ cs)).0))
        → NotTen (digits_value 0 (strip_zeros (c ∷ cs)).0)
    ends_of (inl empty) = let clash = sym empty ∙ head.1 in cc
    ends_of (inr some_end) = some_end 0

    nonzero : IsNonzero g (normal_decimal g (c ∷ cs)) (strip_zeros (c ∷ cs)).1
    nonzero = record {
      value = e ∙ stripped.0 0;
      ends = ends_of stripped.2;
      digits = stripped.1;
      trimmed = subst IsTrimmed (sym head.1) k;
      power = refl;
      sign = refl;
    }

decimal_ext :
    {d e : ExactDecimal}
    → d.coefficient ≡ e.coefficient
    → d.exponent ≡ e.exponent
    → d.sign ≡ e.sign
    → d ≡ e
decimal_ext h k l = cc

sign_injective : (a b : Bool) → sign_of a ≡ sign_of b → a ≡ b
sign_injective true true h = refl
sign_injective true false h = cc
sign_injective false true h = cc
sign_injective false false h = refl

module _ (g h : Groups) (d e : ExactDecimal) (t u : ℕ) (m : IsNonzero g d t)
    (n : IsNonzero h e u) where
  aligned_left : (k : ℕ) → scale k (digits_of g) ≡ scale (k + t) (digits_value 0 d.coefficient)
  aligned_left k = ap (scale k) m.value ∙ scale_add k t (k + t) _ refl

  aligned_right : (k : ℕ) → scale k (digits_of h) ≡ scale (k + u) (digits_value 0 e.coefficient)
  aligned_right k = ap (scale k) n.value ∙ scale_add k u (k + u) _ refl

  nonzero_same : d ≡ e → SameNumber g h
  unfolding SameNumber
  nonzero_same same =
      let above = shift (power_of g) (power_of h) in
      let below = shift (power_of h) (power_of g) in
      let powers =
        (shift-plus_iff (power_of g) (power_of h) t u).0
          (sym m.power ∙ ap (λ x. x.exponent) same ∙ n.power) in
      inr (
        IsNonzero-ne g d t m,
        IsNonzero-ne h e u n,
        sign_injective g.negative h.negative (sym m.sign ∙ ap (λ x. x.sign) same ∙ n.sign),
        aligned_left above
            ∙ ap (λ k. scale k (digits_value 0 d.coefficient)) powers
            ∙ ap (λ x. scale (below + u) (digits_value 0 x.coefficient)) same
            ∙ sym (aligned_right below),
      )

  same_nonzero : SameNumber g h → d ≡ e
  unfolding SameNumber
  same_nonzero (inl zeros) = absurd (IsNonzero-ne g d t m zeros.0)
  same_nonzero (inr (_, _, signs, values)) =
      let above = shift (power_of g) (power_of h) in
      let below = shift (power_of h) (power_of g) in
      let one_form =
        scale_unique (above + t) (below + u) (digits_value 0 d.coefficient)
          (digits_value 0 e.coefficient) m.ends n.ends
          (sym (aligned_left above) ∙ values ∙ aligned_right below) in
      decimal_ext
        (trimmed_injective d.coefficient e.coefficient m.digits n.digits m.trimmed n.trimmed
          one_form.0)
        (m.power ∙ (shift-plus_iff (power_of g) (power_of h) t u).1 one_form.1 ∙ sym n.power)
        (m.sign ∙ ap sign_of signs ∙ sym n.sign)

zero_sign_apart : (b : Bool) → ¬ (zero_sign ≡ sign_of b)
zero_sign_apart true h = cc
zero_sign_apart false h = cc

pub normal_iff :
    (g h : Groups) (d e : ExactDecimal) → IsNormal g d → IsNormal h e → (d ≡ e) ↔ SameNumber g h
unfolding IsNormal SameNumber
normal_iff g h d e (inl (z, p)) (inl (y, q)) = (λ s. inl (z, y), λ s. p ∙ sym q)
normal_iff g h d e (inl (z, p)) (inr (u, n)) = (
  λ s. absurd (zero_sign_apart h.negative (ap (λ x. x.sign) (sym p ∙ s) ∙ n.sign)),
  λ s. absurd (one_zero s),
)
  where
    one_zero : SameNumber g h → ⊥
    one_zero (inl zeros) = IsNonzero-ne h e u n zeros.1
    one_zero (inr (a, b, c, v)) = a z
normal_iff g h d e (inr (t, m)) (inl (y, q)) = (
  λ s. absurd (zero_sign_apart g.negative (ap (λ x. x.sign) (sym q ∙ sym s) ∙ m.sign)),
  λ s. absurd (one_zero s),
)
  where
    one_zero : SameNumber g h → ⊥
    one_zero (inl zeros) = IsNonzero-ne g d t m zeros.0
    one_zero (inr (a, b, c, v)) = b y
normal_iff g h d e (inr (t, m)) (inr (u, n)) =
    (nonzero_same g h d e t u m n, same_nonzero g h d e t u m n)
