-- ===== src/Assessment/Paths.antt =====
-- go/internal/assessment/eval.go: paths of a plan's values, and the masks walked by `TruthyPaths`.
use Prim.Native.Nat.{◌/◌, ◌%◌}
use infrawright_dev.Base.Sorting.{stable_sort}
use infrawright_dev.Base.{
  ℕ, zero, suc, ◌+◌, Bool, true, false, not, ◌&&◌, ◌||◌, List, [], ◌∷◌, ◌++◌, ltb, ◌==◌,
  if◌then◌else◌, Text, text_eq, text_lt,
}
use infrawright_dev.Canonjson.Values.{
  Json, null, boolean, array, object, Items, no_items, item, Fields, no_fields, field, lookup,
}

pub data Segment : Type 0 where
  key : Text → Segment
  index : ℕ → Segment

abbrev pub PlanPath : Type 0
PlanPath = List Segment

-- The digits of a number; fuel `n + 1` is enough for `n`.
digits : ℕ → ℕ → Text
digits zero n = []
digits (suc fuel) n =
    let rest = digits fuel (n / 10) in
    if ltb n 10 then (b'0' + n) ∷ [] else rest ++ (b'0' + n % 10) ∷ []

-- `pathSegmentText`
unfoldable pub segment_text : Segment → Text
unfolding digits
segment_text (key k) = k
segment_text (index n) = digits (suc n) n

-- `comparePaths(left, right) < 0`
unfoldable pub path_lt : PlanPath → PlanPath → Bool
unfolding segment_text
path_lt [] [] = false
path_lt [] (s ∷ ss) = true
path_lt (r ∷ rs) [] = false
path_lt (r ∷ rs) (s ∷ ss) =
    text_lt (segment_text r) (segment_text s)
    || (text_eq (segment_text r) (segment_text s) && path_lt rs ss)

unfoldable pub segment_eq : Segment → Segment → Bool
segment_eq (key a) (key b) = text_eq a b
segment_eq (index a) (index b) = a == b
segment_eq _ _ = false

-- Equal paths are those with equal markers (`pathMarker`).
unfoldable pub path_eq : PlanPath → PlanPath → Bool
unfolding segment_eq
path_eq [] [] = true
path_eq (r ∷ rs) (s ∷ ss) = segment_eq r s && path_eq rs ss
path_eq _ _ = false

unfoldable pub has_path : PlanPath → List PlanPath → Bool
unfolding path_eq
has_path p [] = false
has_path p (q ∷ qs) = path_eq p q || has_path p qs

-- `samePaths`
unfoldable pub same_paths : List PlanPath → List PlanPath → Bool
unfolding path_eq
same_paths [] [] = true
same_paths (p ∷ ps) (q ∷ qs) = path_eq p q && same_paths ps qs
same_paths _ _ = false

abbrev pub append_path : PlanPath → Segment → PlanPath
append_path path segment = path ++ segment ∷ []

-- The paths found under a key, with the key they are sorted by.
pub record Found : Type 0 where
  pub name : Text
  pub paths : List PlanPath

abbrev pub found_lt : Found → Found → Bool
found_lt a b = text_lt a.name b.name

abbrev pub all_found : List Found → List PlanPath
all_found [] = []
all_found (f ∷ fs) = f.paths ++ all_found fs

-- `truthyPathsAt`: an object's members are walked in the order of their keys.
unfoldable mutual
  unfolding stable_sort

  pub truthy_paths_at : Json → PlanPath → List PlanPath
  truthy_paths_at (boolean true) path = path ∷ []
  truthy_paths_at (object fs) path = all_found (stable_sort found_lt (truthy_fields fs path))
  truthy_paths_at (array vs) path = truthy_items vs 0 path
  truthy_paths_at _ path = []

  pub truthy_fields : Fields → PlanPath → List Found
  truthy_fields no_fields path = []
  truthy_fields (field k v rest) path =
      record { name = k; paths = truthy_paths_at v (append_path path (key k)) }
      ∷ truthy_fields rest path

  pub truthy_items : Items → ℕ → PlanPath → List PlanPath
  truthy_items no_items i path = []
  truthy_items (item v vs) i path =
      truthy_paths_at v (append_path path (index i)) ++ truthy_items vs (suc i) path

abbrev pub truthy_paths : Json → List PlanPath
truthy_paths value = truthy_paths_at value []

abbrev pub is_empty {ℓ} : {A : Type ℓ} → List A → Bool
is_empty [] = true
is_empty (x ∷ xs) = false

unfoldable pub mask_is_sensitive : Json → Bool
unfolding truthy_paths_at
mask_is_sensitive mask = not (is_empty (truthy_paths mask))

unfoldable pub nth : Items → ℕ → Json
nth no_items i = null
nth (item v vs) zero = v
nth (item v vs) (suc i) = nth vs i

-- `sensitiveMaskChild`
unfoldable pub sensitive_mask_child : Json → Segment → Json
unfolding lookup nth
sensitive_mask_child (boolean true) segment = boolean true
sensitive_mask_child (object fs) (key k) = lookup k fs
sensitive_mask_child (array vs) (index i) = nth vs i
sensitive_mask_child _ segment = null
