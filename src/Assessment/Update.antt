-- ===== src/Assessment/Update.antt =====
-- go/internal/assessment/eval.go: the paths and the values of an update, `updateContent`, and the
-- question whether set equality explains it, `explainedBySetEquality`.
use infrawright_dev.Base.Sorting.{stable_sort}
use infrawright_dev.Base.{
  Bool, true, false, not, ◌||◌, List, [], ◌∷◌, ◌++◌, map, if◌then◌else◌, Text, codes, member,
}
use infrawright_dev.Canonjson.Values.{
  Json, array, object, Fields, items, lookup, all_keys, Equality,
}
use infrawright_dev.Assessment.Sets.{set_membership}
use infrawright_dev.Assessment.Paths.{
  key, PlanPath, path_lt, has_path, same_paths, truthy_paths, is_empty,
}
use infrawright_dev.Assessment.Diff.{is_same_set}
use infrawright_dev.Assessment.Changes.{PlanChange, diff_changes_with_sets}

-- The `change` object of a record of a validated plan. A member that is missing is null.
pub record Change : Type 0 where
  pub actions : List Text
  pub importing : Json
  pub before : Json
  pub after : Json
  pub before_sensitive : Json
  pub after_sensitive : Json
  pub after_unknown : Json
  pub before_identity : Json
  pub after_identity : Json

-- The synthetic paths.
abbrev pub opaque_update : PlanPath
opaque_update = key (codes "<opaque_update>") ∷ []

abbrev pub identity_change : PlanPath
identity_change = key (codes "<identity_change>") ∷ []

abbrev pub sensitivity_change : PlanPath
sensitivity_change = key (codes "<sensitivity_change>") ∷ []

unfoldable pub collapse_set_path : List Text → PlanPath → PlanPath
collapse_set_path sets (key name ∷ s ∷ rest) =
    if member name sets then key name ∷ [] else key name ∷ s ∷ rest
collapse_set_path sets path = path

unfoldable pub collapse_set_paths : List PlanPath → List Text → List PlanPath
unfolding collapse_set_path
collapse_set_paths paths sets = map (collapse_set_path sets) paths

-- The map `unique`: each path once.
unfoldable pub path_set : List PlanPath → List PlanPath
path_set [] = []
path_set (p ∷ ps) = let rest = path_set ps in if has_path p rest then rest else p ∷ rest

-- The candidates with a segment; those without one are `opaque`.
unfoldable pub visible : List PlanPath → List PlanPath
visible [] = []
visible (p ∷ ps) = let rest = visible ps in if is_empty p then rest else p ∷ rest

unfoldable pub has_empty : List PlanPath → Bool
has_empty [] = false
has_empty (p ∷ ps) = is_empty p || has_empty ps

abbrev pub paths_if : Bool → PlanPath → List PlanPath
paths_if test path = if test then path ∷ [] else []

unfoldable pub sorted_plan_changes : List PlanChange → List PlanChange
sorted_plan_changes = stable_sort (λ a b. path_lt a.path b.path)

module _ (eq : Equality) where
  -- The paths that `updatePathsFrom` collects before it looks for an opaque update.
  unfoldable pub visible_paths : Change → List PlanPath → List PlanPath
  visible_paths change candidates =
      visible candidates
      ++ (paths_if (not (eq.json_equal change.before_identity change.after_identity))
            identity_change
          ++ paths_if
              (not (
                same_paths (truthy_paths change.before_sensitive)
                  (truthy_paths change.after_sensitive)))
              sensitivity_change)

  unfoldable pub update_paths_from : Change → List PlanPath → List Text → List PlanPath
  unfolding visible_paths
  update_paths_from change value_paths sets =
      let candidates = value_paths ++ collapse_set_paths (truthy_paths change.after_unknown) sets in
      let unique = visible_paths change candidates in
      let opaque = has_empty candidates || is_empty unique in
      stable_sort path_lt (path_set (unique ++ paths_if opaque opaque_update))

  unfoldable pub update_content : Change → List Text → List PlanPath × List PlanChange
  unfolding update_paths_from sorted_plan_changes
  update_content change sets =
      let changes =
        diff_changes_with_sets eq change.before change.after change.before_sensitive
          change.after_sensitive sets in
      (update_paths_from change (map (λ c. c.path) changes) sets, sorted_plan_changes changes)

  unfoldable pub same_members : Json → Json → Bool
  same_members (array vs) (array ws) = is_same_set (set_membership eq (items vs) (items ws))
  same_members _ _ = false

  -- The loop of `explainedBySetEquality` over the keys, with its variable `explained`.
  unfoldable pub explain_keys : Fields → Fields → List Text → List Text → Bool → Bool
  unfolding same_members
  explain_keys fs gs sets [] explained = explained
  explain_keys fs gs sets (k ∷ ks) explained =
      let unmoved = explain_keys fs gs sets ks explained in
      let moved = explain_keys fs gs sets ks true in
      if eq.exactly_equal (lookup k fs) (lookup k gs)
      then unmoved
      else if not (member k sets)
      then false
      else if same_members (lookup k fs) (lookup k gs)
      then moved
      else false

  unfoldable pub explain_objects : Json → Json → List Text → Bool
  unfolding explain_keys
  explain_objects (object fs) (object gs) sets = explain_keys fs gs sets (all_keys fs gs) false
  explain_objects _ _ sets = false

  unfoldable pub explained_by_set_equality : Change → List Text → Bool
  unfolding explain_objects
  explained_by_set_equality change sets =
      if is_empty sets then false else explain_objects change.before change.after sets
