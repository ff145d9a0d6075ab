-- ===== src/Canonjson/Normal.antt =====
-- What trimming zeros at both ends does to the number that digits write.
use Prim.Native.Nat.{◌*◌}
use infrawright_dev.Canonjson.Decimals.{is_digit, digits_value, put_digit, strip_zeros, trim_zeros}
use infrawright_dev.Canonjson.Scale.{scale, scale_ten, NotTen, AreDigits, IsTrimmed}
use infrawright_dev.Base.{
  ℕ, ◌+◌, ◌-◌, true, false, [], ◌∷◌, ◌≡◌, ◌≢◌, ◌⊎◌, inl, inr, refl, ◌∙◌, ap, arith, ◌==◌, Text,
  Bool-cases,
}

pub trim-value : (xs : Text) → digits_value 0 (trim_zeros xs) ≡ digits_value 0 xs
unfolding trim_zeros digits_value
trim-value [] = refl
trim-value (c ∷ xs) = elim (Bool-cases (c == 48)) [
  | inl leading ↦ rw leading (trim-value xs ∙ ap (λ a. digits_value a xs) (ground (arith, leading)))
  | inr other ↦ rw other refl
]

pub trim-IsTrimmed : (xs : Text) → IsTrimmed (trim_zeros xs)
unfolding trim_zeros
trim-IsTrimmed [] = tt
trim-IsTrimmed (c ∷ xs) = elim (Bool-cases (c == 48)) [
  | inl leading ↦ rw leading (trim-IsTrimmed xs)
  | inr other ↦ rw other other
]

pub trim-AreDigits : (xs : Text) → AreDigits xs → AreDigits (trim_zeros xs)
unfolding trim_zeros
trim-AreDigits [] h = tt
trim-AreDigits (c ∷ xs) h = elim (Bool-cases (c == 48)) [
  | inl leading ↦ rw leading (trim-AreDigits xs h.1)
  | inr other ↦ rw other h
]

-- What the zeros at the end leave, for digits behind any others.
unfoldable pub IsStripped : Text → Text × ℕ → Type 0
IsStripped text (rest, n) =
    ((acc : ℕ) → digits_value acc text ≡ scale n (digits_value acc rest))
    × AreDigits rest
    × ((rest ≡ []) ⊎ ((acc : ℕ) → NotTen (digits_value acc rest)))

put_digit-IsStripped :
    (c : ℕ) (cs : Text) (r : Text × ℕ)
    → is_digit c ≡ true
    → IsStripped cs r
    → IsStripped (c ∷ cs) (put_digit c r)
unfolding IsStripped digits_value is_digit scale
put_digit-IsStripped c cs ([], n) d h = elim (Bool-cases (c == 48)) [
  | inl trailing ↦ rw trailing (
    λ acc. h.0 (10 * acc + (c - 48)) ∙ ap (scale n) (no_digit acc trailing) ∙ scale_ten n acc,
    tt,
    inl refl,
  )
  | inr other ↦
      rw other (λ acc. h.0 (10 * acc + (c - 48)), (d, tt), inr (λ acc q. last_digit acc q other))
]
  where
    no_digit : (acc : ℕ) → (c == 48) ≡ true → 10 * acc + (c - 48) ≡ 10 * acc
    no_digit acc z = ground (arith, z)

    last_digit : (acc q : ℕ) → (c == 48) ≡ false → 10 * acc + (c - 48) ≢ 10 * q
    last_digit acc q z = ground (arith, z, d)
put_digit-IsStripped c cs (e ∷ es, n) d h =
    (λ acc. h.0 (10 * acc + (c - 48)), (d, h.1), inr (still_stripped h.2))
  where
    still_stripped :
        (◌≡◌ {A = Text} (e ∷ es) [] ⊎ ((acc : ℕ) → NotTen (digits_value acc (e ∷ es))))
        → (acc : ℕ) → NotTen (digits_value (10 * acc + (c - 48)) (e ∷ es))
    still_stripped (inl empty) acc = cc
    still_stripped (inr ends) acc = ends (10 * acc + (c - 48))

pub strip-IsStripped : (text : Text) → AreDigits text → IsStripped text (strip_zeros text)
unfolding strip_zeros IsStripped scale digits_value
strip-IsStripped [] h = (λ acc. refl, tt, inl refl)
strip-IsStripped (c ∷ cs) h =
    put_digit-IsStripped c cs (strip_zeros cs) h.0 (strip-IsStripped cs h.1)

-- A first digit that is no zero stays.
pub put_digit-head :
    (c : ℕ) (r : Text × ℕ) → (c == 48) ≡ false → (ds : Text) × ((put_digit c r).0 ≡ c ∷ ds)
put_digit-head c ([], n) h = ([], rw h refl)
put_digit-head c (d ∷ ds, n) h = (d ∷ ds, refl)
