-- ===== src/Assessment/Verdict.antt =====
-- go/internal/assessment/eval.go: the status that `ClassifyPlanWithOptions` gives a plan.
use infrawright_dev.Base.{
  Bool, true, false, List, [], ◌∷◌, ◌++◌, ◌≡◌, ◌≢◌, ◌↔◌, refl, arith, if◌then◌else◌, Text, All,
  Option,
}
use infrawright_dev.Canonjson.Values.{Equality}
use infrawright_dev.Assessment.Classify.{
  PlanStatus, clean, tolerated, blocked, Source, resource_changes, resource_drift, ChangeRecord,
  Policy, TypeSets, classify_change, in_scope, demote_all, overall, AssessedPlan, classify_records,
  classify_plan,
}
use infrawright_dev.Assessment.Acceptance.{
  is_blocked, none_blocked, overall-none_blocked, none_blocked-append, none_blocked-demote_all,
  none_blocked-keep, IsAccepted, classify_change_iff,
}

-- The records whose address is in the import scope.
abbrev pub selected : Option (List Text) → List ChangeRecord → List ChangeRecord
selected scope [] = []
selected scope (r ∷ rs) = if in_scope scope r then r ∷ selected scope rs else selected scope rs

-- The records that count: the changes in scope and, unless refresh drift is tolerated, the drift.
abbrev pub counted : Option (List Text) → Bool → AssessedPlan → List ChangeRecord
counted scope tolerate_refresh_drift plan =
    selected scope plan.changes
    ++ (if tolerate_refresh_drift then [] else selected scope plan.drift)

status_iff : (s : PlanStatus) → (s ≢ blocked) ↔ (is_blocked s ≡ false)
status_iff clean = ground arith
status_iff tolerated = ground arith
status_iff blocked = ground arith

All-append_iff :
    {A : Type 0} (P : A → Type 0) (xs ys : List A) → All P (xs ++ ys) ↔ (All P xs × All P ys)
All-append_iff P [] ys = ground arith
All-append_iff P (x ∷ xs) ys = ground (arith, All-append_iff P xs ys)

none_blocked-nil : none_blocked [] ≡ true
unfolding none_blocked
none_blocked-nil = refl

module _ (eq : Equality) (policy : Option Policy) (types : List TypeSets) where
  classify_records_iff :
      (scope : Option (List Text)) (source : Source) (rs : List ChangeRecord)
      → (none_blocked (classify_records eq policy types scope false source rs) ≡ true)
        ↔ All (IsAccepted eq policy types) (selected scope rs)
  unfolding classify_records
  classify_records_iff scope source [] = (λ h. tt, λ h. none_blocked-nil)
  classify_records_iff scope source (r ∷ rs) = ground (
    arith,
    classify_records_iff scope source rs,
    classify_change_iff eq policy types source r,
    none_blocked-keep (classify_change eq policy types source r),
    none_blocked-append (demote_all false (classify_change eq policy types source r))
        (classify_records eq policy types scope false source rs),
  )

  none_blocked-classify_records :
      (scope : Option (List Text)) (source : Source) (rs : List ChangeRecord)
      → none_blocked (classify_records eq policy types scope true source rs) ≡ true
  unfolding classify_records none_blocked
  none_blocked-classify_records scope source [] = refl
  none_blocked-classify_records scope source (r ∷ rs) = ground (
    arith,
    none_blocked-classify_records scope source rs,
    none_blocked-demote_all (classify_change eq policy types source r),
    none_blocked-append (demote_all true (classify_change eq policy types source r))
        (classify_records eq policy types scope true source rs),
  )

  counted_drift_iff :
      (scope : Option (List Text)) (tolerate_refresh_drift : Bool) (rs : List ChangeRecord)
      → (none_blocked
            (classify_records eq policy types scope tolerate_refresh_drift resource_drift rs)
          ≡ true)
        ↔ All
            (IsAccepted eq policy types)
            (if tolerate_refresh_drift then [] else selected scope rs)
  counted_drift_iff scope true rs =
      (λ h. tt, λ h. none_blocked-classify_records scope resource_drift rs)
  counted_drift_iff scope false rs = classify_records_iff scope resource_drift rs

  -- A plan is not blocked exactly when each record that counts is accepted: it does nothing, or it
  -- imports a resource, or it is an update, and neither a deletion nor a creation, of which the policy
  -- tolerates every path or which set equality explains. The changes in the import scope count and,
  -- unless refresh drift is tolerated, the drift in it.
  pub classify_plan-IsAccepted_iff :
      (scope : Option (List Text)) (tolerate_refresh_drift : Bool) (plan : AssessedPlan)
      → ((classify_plan eq policy types scope tolerate_refresh_drift plan).status ≢ blocked)
        ↔ All (IsAccepted eq policy types) (counted scope tolerate_refresh_drift plan)
  unfolding classify_plan
  classify_plan-IsAccepted_iff scope tolerate_refresh_drift plan =
      let changes = classify_records eq policy types scope false resource_changes plan.changes in
      let drift =
        classify_records eq policy types scope tolerate_refresh_drift resource_drift plan.drift in
      ground (
        arith,
        status_iff (overall clean (changes ++ drift)),
        overall-none_blocked clean (changes ++ drift) refl,
        none_blocked-append changes drift,
        classify_records_iff scope resource_changes plan.changes,
        counted_drift_iff scope tolerate_refresh_drift plan.drift,
        All-append_iff (IsAccepted eq policy types) (selected scope plan.changes)
            (if tolerate_refresh_drift then [] else selected scope plan.drift),
      )
