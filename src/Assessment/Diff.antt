-- ===== src/Assessment/Diff.antt =====
-- go/internal/assessment/eval.go: the walk that finds the paths that differ, `DiffPathsWithSets`.
-- A walk recurs on the value before; a member that is missing there is null.
use infrawright_dev.Base.{
  ℕ, suc, Bool, ◌&&◌, List, [], ◌∷◌, ◌++◌, if◌then◌else◌, Text, text_eq, member,
}
use infrawright_dev.Canonjson.Values.{
  Json, null, array, object, Items, no_items, item, Fields, no_fields, field, items, lookup,
  all_keys, Equality,
}
use infrawright_dev.Assessment.Sets.{Membership, set_membership}
use infrawright_dev.Assessment.Paths.{key, index, PlanPath, append_path, is_empty}

abbrev pub concat_map {ℓ κ} : {A : Type ℓ} {B : Type κ} → (A → List B) → List A → List B
concat_map f [] = []
concat_map f (x ∷ xs) = f x ++ concat_map f xs

abbrev pub first : Items → Json
first no_items = null
first (item v vs) = v

abbrev pub others : Items → Items
others no_items = no_items
others (item v vs) = vs

-- The membership is known and has not moved.
abbrev pub is_same_set : Membership → Bool
is_same_set m = m.determinate && is_empty m.delta.added && is_empty m.delta.removed

module _ (eq : Equality) where
  -- `setAttributePaths`; the first argument is the ordinary walk of the attribute.
  unfoldable pub set_attribute_paths : List PlanPath → Json → Json → PlanPath → List PlanPath
  set_attribute_paths walk (array vs) (array ws) path =
      if is_same_set (set_membership eq (items vs) (items ws)) then [] else path ∷ []
  set_attribute_paths walk _ _ path = walk

  -- The walk of two values of which one is neither an object nor an array.
  abbrev pub leaf_paths : Json → Json → PlanPath → List PlanPath
  leaf_paths before after path = if eq.json_equal before after then [] else path ∷ []

  unfoldable pub null_paths : Items → ℕ → PlanPath → List PlanPath
  null_paths no_items i path = []
  null_paths (item w ws) i path =
      leaf_paths null w (append_path path (index i)) ++ null_paths ws (suc i) path

  unfoldable mutual
    unfolding null_paths set_attribute_paths lookup

    pub diff_paths_at : Json → Json → PlanPath → List Text → List PlanPath
    diff_paths_at (object fs) (object gs) path sets =
        if eq.json_equal (object fs) (object gs)
        then []
        else concat_map
            (λ k.
              let walk = member_paths k fs (lookup k gs) (append_path path (key k)) in
              if member k sets
              then set_attribute_paths walk (lookup k fs) (lookup k gs) (append_path path (key k))
              else walk)
            (all_keys fs gs)
    diff_paths_at (array vs) (array ws) path sets =
        if eq.json_equal (array vs) (array ws) then [] else array_paths vs ws 0 path
    diff_paths_at before after path sets = leaf_paths before after path

    -- The walk from `beforeObject[key]`.
    pub member_paths : Text → Fields → Json → PlanPath → List PlanPath
    member_paths name no_fields after path = leaf_paths null after path
    member_paths name (field k v rest) after path =
        if text_eq name k then diff_paths_at v after path [] else member_paths name rest after path

    pub array_paths : Items → Items → ℕ → PlanPath → List PlanPath
    array_paths no_items ws i path = null_paths ws i path
    array_paths (item v vs) ws i path =
        diff_paths_at v (first ws) (append_path path (index i)) []
        ++ array_paths vs (others ws) (suc i) path

  -- `DiffPathsWithSets`
  unfoldable pub diff_paths_with_sets : Json → Json → List Text → List PlanPath
  unfolding diff_paths_at
  diff_paths_with_sets before after sets = diff_paths_at before after [] sets
