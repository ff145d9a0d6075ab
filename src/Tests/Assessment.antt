-- ===== src/Tests/Assessment.antt =====
-- A plan with an update of a set, a renamed list member, an import and drift.
use infrawright_dev.Base.{
  Bool, true, false, ◌&&◌, ◌||◌, List, [], ◌∷◌, ◌≡◌, ◌≢◌, ◌↔◌, ◌⊎◌, refl, inr, Text, codes, text_eq,
  All, Option, none, some, ◌+◌, text_lt, member,
}
use infrawright_dev.Base.Sorting.{stable_sort, insert_sorted}
use infrawright_dev.Canonjson.Values.{
  Json, null, boolean, number, string, array, object, Items, no_items, item, Fields, no_fields,
  field, Equality, lookup, key_set, all_keys,
}
use infrawright_dev.Assessment.Paths.{
  path_lt, key, index, nth, PlanPath, truthy_paths, truthy_paths_at, has_path, same_paths, is_empty,
  path_eq, segment_eq, sensitive_mask_child, mask_is_sensitive,
}
use infrawright_dev.Assessment.Sets.{
  multiset_delta, mark_first, match_all, left_over, set_membership,
}
use infrawright_dev.Assessment.Balance.{count, multiset_delta-count}
use infrawright_dev.Assessment.Diff.{diff_paths_with_sets}
use infrawright_dev.Assessment.Changes.{
  diff_changes_with_sets, diff_changes_at, set_attribute_changes, redacted_change,
}
use infrawright_dev.Assessment.Agreement.{paths_of, paths_of-diff_changes_with_sets}
use infrawright_dev.Assessment.Redaction.{Withheld, diff_changes_with_sets-Withheld}
use infrawright_dev.Assessment.Update.{
  path_set, visible_paths, visible, has_empty, Change, identity_change, sensitivity_change,
  update_paths_from, update_content, collapse_set_paths, collapse_set_path,
}
use infrawright_dev.Assessment.Differs.{Differs, IsInUnmovedSet}
use infrawright_dev.Assessment.Marked.{IsMarked}
use infrawright_dev.Assessment.Complete.{
  Shows, attribute_of, update_content-Shows, update_content-attribute_of,
}
use infrawright_dev.Assessment.Reported.{shown, update_paths_from-markers}
use infrawright_dev.Assessment.Classify.{
  set_attributes, tolerated, blocked, ChangeRecord, Policy, TypeSets, AssessedPlan, classify_plan,
}
use infrawright_dev.Assessment.Acceptance.{IsAccepted}
use infrawright_dev.Assessment.Findings.{IsCoherent, classify_plan-IsCoherent}
use infrawright_dev.Assessment.Verdict.{counted, classify_plan-IsAccepted_iff}

abbrev mutual
  pub same : Json → Json → Bool
  same null null = true
  same (boolean true) (boolean true) = true
  same (boolean false) (boolean false) = true
  same (number a) (number b) = text_eq a b
  same (string a) (string b) = text_eq a b
  same (array vs) (array ws) = same_items vs ws
  same (object fs) (object gs) = same_fields fs gs
  same _ _ = false

  same_items : Items → Items → Bool
  same_items no_items no_items = true
  same_items (item v vs) (item w ws) = same v w && same_items vs ws
  same_items _ _ = false

  same_fields : Fields → Fields → Bool
  same_fields no_fields no_fields = true
  same_fields (field k v fs) (field j w gs) = text_eq k j && (same v w && same_fields fs gs)
  same_fields _ _ = false

-- Values are equal when they are spelled alike.
abbrev pub spelled : Equality
spelled = record { json_equal = same; exactly_equal = same }

abbrev urls : Text
urls = codes "urls"

abbrev text_items : List Text → Items
text_items [] = no_items
text_items (t ∷ ts) = item (string t) (text_items ts)

abbrev rule : List Text → Text → Json
rule ts name =
    object (field urls (array (text_items ts)) (field (codes "name") (string name) no_fields))

abbrev before : Json
before = rule (codes "a" ∷ codes "b" ∷ []) (codes "old")

abbrev after : Json
after = rule (codes "b" ∷ codes "c" ∷ []) (codes "new")

abbrev update : Change
update = record {
  actions = codes "update" ∷ [];
  importing = null;
  before = before;
  after = after;
  before_sensitive = null;
  after_sensitive = object (field (codes "name") (boolean true) no_fields);
  after_unknown = object (field (codes "id") (boolean true) no_fields);
  before_identity = null;
  after_identity = null;
}

abbrev import_only : Change
import_only = record update {
  actions = codes "create" ∷ [];
  importing = object (field (codes "id") (string (codes "7")) no_fields);
}

abbrev on_rule : Text → Change → ChangeRecord
on_rule address change = record {
  address = address;
  resource_type = codes "zia_rule";
  change = change;
}

abbrev pub plan : AssessedPlan
plan = record {
  changes = on_rule (codes "r.a") update ∷ on_rule (codes "r.b") import_only ∷ [];
  drift = on_rule (codes "r.c") update ∷ [];
}

-- The policy tolerates every update of a rule.
abbrev policy : Policy
policy resource_type path action = text_eq resource_type (codes "zia_rule")

abbrev pub types : List TypeSets
types = record { resource_type = codes "zia_rule"; names = urls ∷ [] } ∷ []

abbrev scope : Option (List Text)
scope = some (codes "r.a" ∷ codes "r.b" ∷ [])

classify_plan-IsAccepted_iff_example :
    ((classify_plan spelled (some policy) types scope false plan).status ≢ blocked)
    ↔ All (IsAccepted spelled (some policy) types) (counted scope false plan)
classify_plan-IsAccepted_iff_example =
    classify_plan-IsAccepted_iff spelled (some policy) types scope false plan

paths_of-diff_changes_with_sets_example :
    paths_of (diff_changes_with_sets spelled before after null (boolean true) (urls ∷ []))
    ≡ diff_paths_with_sets spelled before after (urls ∷ [])
paths_of-diff_changes_with_sets_example =
    paths_of-diff_changes_with_sets spelled before after null (boolean true) (urls ∷ [])

diff_changes_with_sets-Withheld_example :
    Withheld (diff_changes_with_sets spelled before after null (boolean true) (urls ∷ []))
diff_changes_with_sets-Withheld_example =
    diff_changes_with_sets-Withheld spelled before after null (boolean true) (urls ∷ []) (inr refl)

abbrev any_value : Json → Bool
any_value v = true

multiset_delta-count_example :
    let one_two = string (codes "1") ∷ string (codes "2") ∷ [] in
    let two = string (codes "2") ∷ [] in
    let delta = multiset_delta spelled one_two two in
    count any_value one_two + count any_value delta.added
    ≡ count any_value two + count any_value delta.removed
multiset_delta-count_example =
    multiset_delta-count spelled any_value (λ a b h. refl)
      (string (codes "1") ∷ string (codes "2") ∷ []) (string (codes "2") ∷ [])

abbrev name_path : PlanPath
name_path = key (codes "name") ∷ []

name_path-Differs : Differs spelled name_path update.before update.after
unfolding lookup text_eq member
name_path-Differs = (refl, refl, (refl, refl))

update_content-Shows_example :
    Shows name_path (update_content spelled update (urls ∷ [])).0
    ⊎ IsInUnmovedSet spelled (urls ∷ []) name_path update.before update.after
update_content-Shows_example =
    update_content-Shows spelled update (urls ∷ []) name_path name_path-Differs

-- A member of the set is unknown.
abbrev unknown_url : Change
unknown_url = record update {
  after_unknown = object (field urls (array (item (boolean true) no_items)) no_fields);
}

url_path-IsMarked : IsMarked (key urls ∷ index 0 ∷ []) unknown_url.after_unknown
unfolding lookup text_eq member nth
url_path-IsMarked = (refl, (refl, tt))

update_content-attribute_of_example :
    has_path
      (shown (attribute_of (urls ∷ []) (key urls ∷ index 0 ∷ [])))
      (update_content spelled unknown_url (urls ∷ [])).0
    ≡ true
update_content-attribute_of_example =
    update_content-attribute_of spelled unknown_url (urls ∷ []) (key urls ∷ index 0 ∷ [])
      url_path-IsMarked

update_paths_from-markers_example :
    let paths = update_paths_from spelled update [] (urls ∷ []) in
    (is_empty paths ≡ false)
    × ((spelled.json_equal update.before_identity update.after_identity
          || has_path identity_change paths)
        ≡ true)
    × ((same_paths (truthy_paths update.before_sensitive) (truthy_paths update.after_sensitive)
          || has_path sensitivity_change paths)
        ≡ true)
update_paths_from-markers_example = update_paths_from-markers spelled update (urls ∷ []) []

classify_plan-IsCoherent_example :
    All (IsCoherent scope) (classify_plan spelled (some policy) types scope false plan).findings
classify_plan-IsCoherent_example =
    classify_plan-IsCoherent scope spelled (some policy) types false plan

-- The update of the rule is tolerated, and the drift is out of scope.
classify_plan-status :
    (classify_plan spelled (some policy) types scope false plan).status ≡ tolerated
unfolding classify_plan has_path path_eq segment_eq text_eq collapse_set_paths collapse_set_path
    truthy_paths_at stable_sort diff_changes_with_sets diff_changes_at lookup key_set all_keys
    member text_lt insert_sorted redacted_change mask_is_sensitive sensitive_mask_child
    set_attribute_changes set_membership multiset_delta match_all mark_first left_over path_set
    visible_paths path_lt update_content visible set_attributes same_paths has_empty
classify_plan-status = refl

-- Without a policy the update blocks the plan.
classify_plan-no_policy : (classify_plan spelled none types scope false plan).status ≡ blocked
unfolding classify_plan has_path path_eq segment_eq text_eq collapse_set_paths collapse_set_path
    truthy_paths_at stable_sort diff_changes_with_sets diff_changes_at lookup key_set all_keys
    member text_lt insert_sorted redacted_change mask_is_sensitive sensitive_mask_child
    set_attribute_changes set_membership multiset_delta match_all mark_first left_over path_set
    visible_paths path_lt update_content visible set_attributes same_paths has_empty
classify_plan-no_policy = refl
