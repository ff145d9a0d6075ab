-- ===== src/Assessment/Changes.antt =====
-- go/internal/assessment/eval.go: the walk that carries the values that differ, `DiffChangesWithSets`.
use infrawright_dev.Base.{
  ℕ, suc, Bool, true, false, not, ◌&&◌, List, [], ◌∷◌, ◌++◌, if◌then◌else◌, Text, text_eq, member,
}
use infrawright_dev.Canonjson.Values.{
  Json, null, array, object, Items, no_items, item, Fields, no_fields, field, items, lookup,
  all_keys, Equality,
}
use infrawright_dev.Assessment.Sets.{Delta, set_membership}
use infrawright_dev.Assessment.Paths.{
  key, index, PlanPath, append_path, mask_is_sensitive, sensitive_mask_child,
}
use infrawright_dev.Assessment.Diff.{concat_map, first, others, is_same_set}

pub data PlanChangeKind : Type 0 where
  scalar_change set_change : PlanChangeKind

-- A `nil` value is null, a nil list of members is empty.
pub record PlanChange : Type 0 where
  pub path : PlanPath
  pub kind : PlanChangeKind
  pub sensitive : Bool
  pub before : Json
  pub after : Json
  pub added : List Json
  pub removed : List Json

unfoldable pub redacted_change : PlanChange → Json → Json → PlanChange
unfolding mask_is_sensitive
redacted_change change before_sensitive after_sensitive =
    if not (mask_is_sensitive before_sensitive) && not (mask_is_sensitive after_sensitive)
    then change
    else record {
      path = change.path;
      kind = change.kind;
      sensitive = true;
      before = null;
      after = null;
      added = [];
      removed = [];
    }

abbrev pub scalar : PlanPath → Json → Json → PlanChange
scalar path before after = record {
  path = path;
  kind = scalar_change;
  sensitive = false;
  before = before;
  after = after;
  added = [];
  removed = [];
}

abbrev pub moved : PlanPath → Delta → PlanChange
moved path delta = record {
  path = path;
  kind = set_change;
  sensitive = false;
  before = null;
  after = null;
  added = delta.added;
  removed = delta.removed;
}

module _ (eq : Equality) where
  unfoldable pub set_attribute_changes :
      List PlanChange
      → (before after before_sensitive after_sensitive : Json) → PlanPath
      → List PlanChange
  unfolding redacted_change
  set_attribute_changes walk (array vs) (array ws) mask_before mask_after path =
      let m = set_membership eq (items vs) (items ws) in
      if is_same_set m then [] else redacted_change (moved path m.delta) mask_before mask_after ∷ []
  set_attribute_changes walk _ _ mask_before mask_after path = walk

  abbrev pub leaf_changes :
      (before after before_sensitive after_sensitive : Json) → PlanPath → List PlanChange
  leaf_changes before after mask_before mask_after path =
      if eq.json_equal before after
      then []
      else redacted_change (scalar path before after) mask_before mask_after ∷ []

  unfoldable pub null_changes : Items → Json → Json → ℕ → PlanPath → List PlanChange
  unfolding sensitive_mask_child
  null_changes no_items mask_before mask_after i path = []
  null_changes (item w ws) mask_before mask_after i path =
      leaf_changes null w (sensitive_mask_child mask_before (index i))
        (sensitive_mask_child mask_after (index i)) (append_path path (index i))
      ++ null_changes ws mask_before mask_after (suc i) path

  unfoldable mutual
    unfolding null_changes set_attribute_changes lookup redacted_change

    pub diff_changes_at :
        (before after before_sensitive after_sensitive : Json)
        → PlanPath
        → List Text
        → List PlanChange
    diff_changes_at (object fs) (object gs) mask_before mask_after path sets =
        if eq.json_equal (object fs) (object gs)
        then []
        else concat_map
            (λ k.
              let child_before = sensitive_mask_child mask_before (key k) in
              let child_after = sensitive_mask_child mask_after (key k) in
              let here = append_path path (key k) in
              let walk = member_changes k fs (lookup k gs) child_before child_after here in
              if member k sets
              then set_attribute_changes walk (lookup k fs) (lookup k gs) child_before child_after
                  here
              else walk)
            (all_keys fs gs)
    diff_changes_at (array vs) (array ws) mask_before mask_after path sets =
        if eq.json_equal (array vs) (array ws)
        then []
        else array_changes vs ws mask_before mask_after 0 path
    diff_changes_at before after mask_before mask_after path sets =
        leaf_changes before after mask_before mask_after path

    -- The walk from `beforeObject[key]`.
    pub member_changes :
        Text → Fields → (after before_sensitive after_sensitive : Json) → PlanPath → List PlanChange
    member_changes name no_fields after mask_before mask_after path =
        leaf_changes null after mask_before mask_after path
    member_changes name (field k v rest) after mask_before mask_after path =
        if text_eq name k
        then diff_changes_at v after mask_before mask_after path []
        else member_changes name rest after mask_before mask_after path

    pub array_changes :
        Items → Items → (before_sensitive after_sensitive : Json) → ℕ → PlanPath → List PlanChange
    array_changes no_items ws mask_before mask_after i path =
        null_changes ws mask_before mask_after i path
    array_changes (item v vs) ws mask_before mask_after i path =
        diff_changes_at v (first ws) (sensitive_mask_child mask_before (index i))
          (sensitive_mask_child mask_after (index i)) (append_path path (index i)) []
        ++ array_changes vs (others ws) mask_before mask_after (suc i) path

  -- `DiffChangesWithSets`
  unfoldable pub diff_changes_with_sets :
      (before after before_sensitive after_sensitive : Json) → List Text → List PlanChange
  unfolding diff_changes_at
  diff_changes_with_sets before after mask_before mask_after sets =
      diff_changes_at before after mask_before mask_after [] sets
