-- ===== src/Base/Distinct.antt =====
-- Sets of texts as lists: membership, and lists in which no text stands twice.
use Prim.Native.Nat.{ℕ, ◌+◌, ◌≤◌}
use mathlib.Core.Path.{◌≡◌, refl}
use mathlib.Core.Bool.{Bool, true, false, not, ◌&&◌, ◌||◌}
use mathlib.Core.List.{List, [], ◌∷◌, ◌++◌}
use native.Mathlib.Omega.{arith}
use infrawright_dev.Base.Tests.{if◌then◌else◌}
use infrawright_dev.Base.Texts.{Text, text_eq, text_eq_comm, text_eq_refl}

unfoldable pub member : Text → List Text → Bool
member k [] = false
member k (j ∷ js) = text_eq k j || member k js

unfoldable pub is_distinct : List Text → Bool
unfolding member
is_distinct [] = true
is_distinct (k ∷ ks) = not (member k ks) && is_distinct ks

-- The loop over a `seen` map that stops at a text met before.
unfoldable pub has_duplicate : List Text → List Text → Bool
unfolding member
has_duplicate seen [] = false
has_duplicate seen (k ∷ ks) = member k seen || has_duplicate (k ∷ seen) ks

overlaps : List Text → List Text → Bool
unfolding member
overlaps seen [] = false
overlaps seen (k ∷ ks) = member k seen || overlaps seen ks

overlaps-cons :
    (k : Text) (seen ks : List Text) → overlaps (k ∷ seen) ks ≡ (member k ks || overlaps seen ks)
unfolding overlaps
overlaps-cons k seen [] = refl
overlaps-cons k seen (j ∷ js) = ground (arith, overlaps-cons k seen js, text_eq_comm k j)

overlaps-nil : (ks : List Text) → overlaps [] ks ≡ false
unfolding overlaps
overlaps-nil [] = refl
overlaps-nil (k ∷ ks) = overlaps-nil ks

has_duplicate-overlaps :
    (seen ks : List Text) → has_duplicate seen ks ≡ (overlaps seen ks || not (is_distinct ks))
unfolding has_duplicate is_distinct overlaps
has_duplicate-overlaps seen [] = refl
has_duplicate-overlaps seen (k ∷ ks) =
    ground (arith, has_duplicate-overlaps (k ∷ seen) ks, overlaps-cons k seen ks)

pub has_duplicate-is_distinct : (ks : List Text) → has_duplicate [] ks ≡ not (is_distinct ks)
has_duplicate-is_distinct ks = ground (arith, has_duplicate-overlaps [] ks, overlaps-nil ks)

pub member-append :
    (k : Text) (xs ys : List Text) → member k (xs ++ ys) ≡ (member k xs || member k ys)
unfolding member
member-append k [] ys = refl
member-append k (x ∷ xs) ys = ground (arith, member-append k xs ys)

-- In a list without repetition a text does not stand in front of itself.
pub is_distinct-append-cons :
    (xs : List Text) (k : Text) (ys : List Text)
    → is_distinct (xs ++ k ∷ ys) ≡ true
    → member k xs ≡ false
unfolding is_distinct
is_distinct-append-cons [] k ys h = refl
is_distinct-append-cons (x ∷ xs) k ys h =
    ground (arith, is_distinct-append-cons xs k ys, member-append x xs (k ∷ ys), text_eq_comm k x)

-- How often a text stands in a list.
unfoldable pub occurrences : Text → List Text → ℕ
occurrences k [] = 0
occurrences k (j ∷ js) = (if text_eq k j then 1 else 0) + occurrences k js

member-occurrences : (k : Text) (ks : List Text) → member k ks ≡ true → 1 ≤ occurrences k ks
unfolding member occurrences
member-occurrences k [] h = cc
member-occurrences k (j ∷ js) h = ground (arith, member-occurrences k js)

-- A list in which every member stands once has no repetition.
pub is_distinct_of_occurrences :
    (ks : List Text)
    → ((k : Text) → member k ks ≡ true → occurrences k ks ≤ 1)
    → is_distinct ks ≡ true
unfolding is_distinct occurrences
is_distinct_of_occurrences [] h = refl
is_distinct_of_occurrences (j ∷ js) h = ground (
  arith,
  h j,
  text_eq_refl j,
  member-occurrences j js,
  is_distinct_of_occurrences js λ k m. ground (arith, h k, m),
)
