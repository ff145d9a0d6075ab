-- ===== src/Assessment/Findings.antt =====
-- go/internal/assessment/eval.go: the findings of `ClassifyPlanWithOptions`.
use infrawright_dev.Base.{
  Bool, true, false, not, ◌&&◌, List, [], ◌∷◌, ◌≡◌, refl, arith, Text, codes, member, Bool-cases,
  inl, inr, All, All-append, Option, none, some,
}
use infrawright_dev.Canonjson.Values.{Equality}
use infrawright_dev.Assessment.Paths.{PlanPath, has_path, is_empty, truthy_paths}
use infrawright_dev.Assessment.Changes.{PlanChange}
use infrawright_dev.Assessment.Update.{update_content, explained_by_set_equality}
use infrawright_dev.Assessment.Classify.{
  PlanStatus, clean, blocked, Source, resource_changes, resource_drift, ChangeRecord, PlanFinding,
  Policy, TypeSets, set_attributes, changes_for_paths, unmatched_paths, finding, marker,
  judge_update, only_opaque_update, classify_update, classify_change, in_scope, demote_all,
  AssessedPlan, classify_records, classify_plan,
}

-- The address is in the scope of a contract, or the contract has none.
abbrev pub has_address : Option (List Text) → Text → Bool
has_address none address = true
has_address (some addresses) address = member address addresses

pub record IsCoherent (scope : Option (List Text)) (f : PlanFinding) : Type 0 where
  pub address : has_address scope f.address ≡ true
  pub changes : All (λ c. has_path c.path f.paths ≡ true) f.changes

changes_for_paths-has_path :
    (cs : List PlanChange) (paths : List PlanPath)
    → All (λ c. has_path c.path paths ≡ true) (changes_for_paths cs paths)
unfolding changes_for_paths
changes_for_paths-has_path [] paths = tt
changes_for_paths-has_path (c ∷ cs) paths = elim (Bool-cases (has_path c.path paths)) [
  | inl here ↦ rw (here, changes_for_paths) (here, changes_for_paths-has_path cs paths)
  | inr absent ↦ rw (absent, changes_for_paths) (changes_for_paths-has_path cs paths)
]

in_scope-has_address :
    (scope : Option (List Text)) (r : ChangeRecord)
    → in_scope scope r ≡ true
    → has_address scope r.address ≡ true
unfolding in_scope
in_scope-has_address none r h = refl
in_scope-has_address (some addresses) r h = h

module _ (scope : Option (List Text)) where
  finding-IsCoherent :
      (status : PlanStatus) (source : Source) (r : ChangeRecord) (paths : List PlanPath)
      → has_address scope r.address ≡ true
      → IsCoherent scope (finding status source r paths)
  finding-IsCoherent status source r paths h = record { address = h; changes = tt }

  judge_update-IsCoherent :
      (policy : Option Policy) (source : Source) (r : ChangeRecord) (paths : List PlanPath)
      (changes : List PlanChange)
      → has_address scope r.address ≡ true
      → IsCoherent scope (judge_update policy source r (paths, changes))
  unfolding judge_update
  judge_update-IsCoherent policy source r paths changes h =
      let left = unmatched_paths policy r.resource_type paths in
      elim (Bool-cases (not (is_empty left))) [
        | inl some_left ↦
            rw (some_left, judge_update)
              (record { address = h; changes = changes_for_paths-has_path changes left })
        | inr none_left ↦
            rw (none_left, judge_update)
              (record { address = h; changes = changes_for_paths-has_path changes paths })
      ]

  demote_all-IsCoherent :
      (demote : Bool) (fs : List PlanFinding)
      → All (IsCoherent scope) fs
      → All (IsCoherent scope) (demote_all demote fs)
  demote_all-IsCoherent demote [] h = tt
  demote_all-IsCoherent demote (f ∷ fs) h =
      (record { address = h.0.address; changes = h.0.changes }, demote_all-IsCoherent demote fs h.1)

  module _ (eq : Equality) (policy : Option Policy) (types : List TypeSets) where
    classify_update-IsCoherent :
        (source : Source) (r : ChangeRecord)
        → has_address scope r.address ≡ true
        → IsCoherent scope (classify_update eq policy types source r)
    unfolding classify_update
    classify_update-IsCoherent source r h =
        let sets = set_attributes types r.resource_type in
        let content = update_content eq r.change sets in
        elim (Bool-cases (
          only_opaque_update content.0
          && is_empty (truthy_paths r.change.after_unknown)
          && explained_by_set_equality eq r.change sets)) [
            | inl same ↦ rw (same, classify_update) (finding-IsCoherent clean source r [] h)
            | inr other ↦
                rw (other, classify_update)
                  (judge_update-IsCoherent policy source r content.0 content.1 h)
          ]

    classify_change-IsCoherent :
        (source : Source) (r : ChangeRecord)
        → has_address scope r.address ≡ true
        → All (IsCoherent scope) (classify_change eq policy types source r)
    unfolding classify_change
    classify_change-IsCoherent source r h = ground (
      arith,
      finding-IsCoherent clean source r [] h,
      finding-IsCoherent blocked source r (marker (codes "<delete>")) h,
      finding-IsCoherent blocked source r (marker (codes "<create>")) h,
      finding-IsCoherent blocked source r (marker (codes "<unsupported_action>")) h,
      classify_update-IsCoherent source r h,
    )

    classify_records-IsCoherent :
        (demote : Bool) (source : Source) (rs : List ChangeRecord)
        → All (IsCoherent scope) (classify_records eq policy types scope demote source rs)
    unfolding classify_records
    classify_records-IsCoherent demote source [] = tt
    classify_records-IsCoherent demote source (r ∷ rs) = elim (Bool-cases (in_scope scope r)) [
      | inl here ↦
          rw (here, classify_records)
            (All-append (IsCoherent scope) _ _
              (demote_all-IsCoherent demote (classify_change eq policy types source r)
                (classify_change-IsCoherent source r (in_scope-has_address scope r here)))
              (classify_records-IsCoherent demote source rs))
      | inr outside ↦ rw (outside, classify_records) (classify_records-IsCoherent demote source rs)
    ]

    -- Every finding of a plan has an address in the import scope, where the contract has one, and
    -- shows no change at a path that it does not report.
    pub classify_plan-IsCoherent :
        (tolerate_refresh_drift : Bool) (plan : AssessedPlan)
        → All
            (IsCoherent scope)
            (classify_plan eq policy types scope tolerate_refresh_drift plan).findings
    unfolding classify_plan
    classify_plan-IsCoherent tolerate_refresh_drift plan =
        All-append (IsCoherent scope) _ _
          (classify_records-IsCoherent false resource_changes plan.changes)
          (classify_records-IsCoherent tolerate_refresh_drift resource_drift plan.drift)
