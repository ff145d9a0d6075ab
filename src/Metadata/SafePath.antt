-- ===== src/Metadata/SafePath.antt =====
-- go/internal/metadata/driftpolicy.go: what `parsePolicyPath` returns on any text.
use infrawright_dev.Metadata.DriftPolicy.{PolicySegment, name, position, big, Selector}
use infrawright_dev.Metadata.PolicyPath.{PathError, out_of_fuel, is_letter}
use infrawright_dev.Base.{
  ◌≤◌, ◌<◌, true, All, Option, none, some, List, [], ◌∷◌, ◌≡◌, length, Text, Result, ok, err,
}

-- An error other than a lack of fuel, or a value with the property.
abbrev pub Ensures : {A : Type 0} → (A → Type 0) → Result PathError A → Type 0
Ensures P (ok a) = P a
Ensures P (err out_of_fuel) = ⊥
Ensures P (err _) = Unit

-- An index that is kept as a small number is at most 2^53 - 1, one that is kept as a big one is beyond.
abbrev pub IsCanonical : PolicySegment → Type 0
IsCanonical (name _) = Unit
IsCanonical (position n) = n ≤ 9_007_199_254_740_991
IsCanonical (big n) = 9_007_199_254_740_991 < n

-- A field name that begins with a letter, and segments behind it.
abbrev pub IsParsed : Selector → Type 0
IsParsed (name (c ∷ cs) ∷ rest) = (is_letter c ≡ true) × All IsCanonical rest
IsParsed _ = ⊥

-- A selector leaves a text that is not longer.
Shorter : Text → Option (Text × Text) → Type 0
Shorter raw none = Unit
Shorter raw (some (selector, rest)) = length rest ≤ length raw

-- There is a part.
abbrev IsSome : List Text → Type 0
IsSome [] = ⊥
IsSome (raw ∷ rest) = Unit
