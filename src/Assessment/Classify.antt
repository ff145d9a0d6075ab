-- ===== src/Assessment/Classify.antt =====
-- go/internal/assessment/eval.go: `classifyChange` and `ClassifyPlanWithOptions`, on a plan that
-- `ValidateAssessmentPlan` accepts. The policy is what `ToleratesPlanPath` answers.
use infrawright_dev.Base.Sorting.{stable_sort}
use infrawright_dev.Base.{
  Bool, true, false, not, ◌&&◌, ◌||◌, List, [], ◌∷◌, ◌++◌, if◌then◌else◌, ◌==◌, length, Text, codes,
  text_eq, text_lt, member, Option, none, some,
}
use infrawright_dev.Canonjson.Values.{Json, object, field, key_set, Equality}
use infrawright_dev.Assessment.Paths.{key, PlanPath, path_eq, has_path, truthy_paths, is_empty}
use infrawright_dev.Assessment.Changes.{PlanChange}
use infrawright_dev.Assessment.Update.{
  Change, opaque_update, update_content, explained_by_set_equality,
}

pub data PlanStatus : Type 0 where
  clean tolerated blocked : PlanStatus

pub data Source : Type 0 where
  resource_changes resource_drift : Source

pub record ChangeRecord : Type 0 where
  pub address : Text
  pub resource_type : Text
  pub change : Change

pub record PlanFinding : Type 0 where
  pub status : PlanStatus
  pub source : Source
  pub address : Text
  pub actions : List Text
  pub paths : List PlanPath
  pub changes : List PlanChange

pub record PlanClassification : Type 0 where
  pub status : PlanStatus
  pub findings : List PlanFinding

-- `ToleratesPlanPath`: a resource type, a path and an action.
abbrev pub Policy : Type 0
Policy = Text → PlanPath → Text → Bool

-- `PlanSchemaTypes`: the names of the set attributes, per resource type.
pub record TypeSets : Type 0 where
  pub resource_type : Text
  pub names : List Text

unfoldable pub set_attributes : List TypeSets → Text → List Text
set_attributes [] resource_type = []
set_attributes (t ∷ ts) resource_type =
    if text_eq t.resource_type resource_type then t.names else set_attributes ts resource_type

unfoldable pub only_no_op : List Text → Bool
only_no_op [] = true
only_no_op (a ∷ as_left) = text_eq a (codes "no-op") && only_no_op as_left

abbrev pub has_action : Text → List Text → Bool
has_action = member

-- `len(importing) > 0` of an object.
unfoldable pub is_importing : Json → Bool
is_importing (object (field k v rest)) = true
is_importing _ = false

unfoldable pub sorted_actions : List Text → List Text
sorted_actions actions = stable_sort text_lt (key_set actions)

unfoldable pub only_opaque_update : List PlanPath → Bool
only_opaque_update (p ∷ []) = path_eq p opaque_update
only_opaque_update _ = false

unfoldable pub changes_for_paths : List PlanChange → List PlanPath → List PlanChange
changes_for_paths [] paths = []
changes_for_paths (c ∷ cs) paths =
    let rest = changes_for_paths cs paths in if has_path c.path paths then c ∷ rest else rest

unfoldable pub tolerates : Option Policy → Text → PlanPath → Bool
tolerates none resource_type path = false
tolerates (some policy) resource_type path = policy resource_type path (codes "update")

unfoldable pub unmatched_paths : Option Policy → Text → List PlanPath → List PlanPath
unfolding tolerates
unmatched_paths policy resource_type [] = []
unmatched_paths policy resource_type (p ∷ ps) =
    let rest = unmatched_paths policy resource_type ps in
    if tolerates policy resource_type p then rest else p ∷ rest

-- A finding on a record with no changes to show.
abbrev pub finding : PlanStatus → Source → ChangeRecord → List PlanPath → PlanFinding
finding status source r paths = record {
  status = status;
  source = source;
  address = r.address;
  actions = sorted_actions r.change.actions;
  paths = paths;
  changes = [];
}

abbrev pub marker : Text → List PlanPath
marker name = (key name ∷ []) ∷ []

-- What the policy makes of an update.
unfoldable pub judge_update :
    Option Policy → Source → ChangeRecord → List PlanPath × List PlanChange → PlanFinding
unfolding unmatched_paths changes_for_paths
judge_update policy source r (paths, changes) =
    let left = unmatched_paths policy r.resource_type paths in
    if not (is_empty left)
    then record (finding blocked source r left) { changes = changes_for_paths changes left }
    else record (finding tolerated source r paths) { changes = changes_for_paths changes paths }

-- The filter of the import scope: `none` is a contract without one.
unfoldable pub in_scope : Option (List Text) → ChangeRecord → Bool
in_scope none r = true
in_scope (some addresses) r = member r.address addresses

unfoldable pub demote_status : Bool → PlanStatus → PlanStatus
demote_status true blocked = tolerated
demote_status demote status = status

abbrev pub demote_all : Bool → List PlanFinding → List PlanFinding
demote_all demote [] = []
demote_all demote (f ∷ fs) =
    record f { status = demote_status demote f.status } ∷ demote_all demote fs

-- The loop that derives the status of the findings.
unfoldable pub overall : PlanStatus → List PlanFinding → PlanStatus
overall status [] = status
overall status (f ∷ fs) = elim f.status [
  | blocked ↦ blocked
  | tolerated ↦ overall tolerated fs
  | clean ↦ overall status fs
]

-- The two sections of a plan.
pub record AssessedPlan : Type 0 where
  pub changes : List ChangeRecord
  pub drift : List ChangeRecord

module _ (eq : Equality) (policy : Option Policy) (types : List TypeSets) where
  -- The branch of an update.
  unfoldable pub classify_update : Source → ChangeRecord → PlanFinding
  unfolding judge_update only_opaque_update
  classify_update source r =
      let sets = set_attributes types r.resource_type in
      let content = update_content eq r.change sets in
      if only_opaque_update content.0
        && is_empty (truthy_paths r.change.after_unknown)
        && explained_by_set_equality eq r.change sets
      then finding clean source r []
      else judge_update policy source r content

  unfoldable pub classify_change : Source → ChangeRecord → List PlanFinding
  unfolding classify_update only_no_op is_importing
  classify_change source r =
      let actions = r.change.actions in
      if is_empty actions || only_no_op actions
      then []
      else if is_importing r.change.importing
          && length (key_set actions) == 1
          && has_action (codes "create") actions
      then finding clean source r [] ∷ []
      else if has_action (codes "delete") actions
      then finding blocked source r (marker (codes "<delete>")) ∷ []
      else if has_action (codes "create") actions
      then finding blocked source r (marker (codes "<create>")) ∷ []
      else if has_action (codes "update") actions
      then classify_update source r ∷ []
      else finding blocked source r (marker (codes "<unsupported_action>")) ∷ []

  -- The loop over the records of a section.
  unfoldable pub classify_records :
      Option (List Text) → Bool → Source → List ChangeRecord → List PlanFinding
  unfolding classify_change in_scope demote_status
  classify_records scope demote source [] = []
  classify_records scope demote source (r ∷ rs) =
      let rest = classify_records scope demote source rs in
      if in_scope scope r then demote_all demote (classify_change source r) ++ rest else rest

  -- `ClassifyPlanWithOptions`, with the import scope of the contract and `TolerateRefreshDrift`.
  unfoldable pub classify_plan : Option (List Text) → Bool → AssessedPlan → PlanClassification
  unfolding classify_records overall
  classify_plan scope tolerate_refresh_drift plan =
      let findings =
        classify_records scope false resource_changes plan.changes
        ++ classify_records scope tolerate_refresh_drift resource_drift plan.drift in
      record { status = overall clean findings; findings = findings }
