-- ===== src/Metadata/Marks.antt =====
-- go/internal/metadata/driftpolicy.go: the marks that `ToleratesPlanPath` leaves, and its answers.
use infrawright_dev.Base.{ℕ, List, Text, ◌≡◌, ap, ◌∙◌, arith}
use infrawright_dev.Assessment.Paths.{PlanPath}
use infrawright_dev.Metadata.DriftPolicy.{
  DriftPolicy, ResourceEntries, indexes_of, tolerates_plan_path,
}

-- A call keeps the entries of the policy.
sources-tolerates_plan_path :
    (policy : DriftPolicy) (resource_type : Text) (path : PlanPath) (action : Text)
    → (tolerates_plan_path policy resource_type path action).1.sources ≡ policy.sources
unfolding tolerates_plan_path
sources-tolerates_plan_path policy resource_type path action = ground arith

-- The answer depends on the entries only.
same_answer :
    (sources : List ResourceEntries) (marks more : List ℕ) (resource_type : Text) (path : PlanPath)
    (action : Text)
    → (tolerates_plan_path
        (record { sources = sources; matched = marks })
        resource_type
        path
        action).0
      ≡ (tolerates_plan_path
          (record { sources = sources; matched = more })
          resource_type
          path
          action).0
unfolding tolerates_plan_path indexes_of
same_answer sources marks more resource_type path action = ground arith

-- Whether a path is tolerated does not depend on the calls before: a call of `ToleratesPlanPath`
-- answers after another as it does without it.
pub tolerates_plan_path-tolerates_plan_path :
    (policy : DriftPolicy) (resource_type other_type : Text) (path other_path : PlanPath)
    (action other_action : Text)
    → (tolerates_plan_path
        (tolerates_plan_path policy other_type other_path other_action).1
        resource_type
        path
        action).0
      ≡ (tolerates_plan_path policy resource_type path action).0
tolerates_plan_path-tolerates_plan_path policy resource_type other_type path other_path action
      other_action =
    let after = (tolerates_plan_path policy other_type other_path other_action).1 in
    ap
      (λ sources.
        (tolerates_plan_path (record { sources = sources; matched = after.matched }) resource_type
          path action).0)
      (sources-tolerates_plan_path policy other_type other_path other_action)
    ∙ same_answer policy.sources after.matched policy.matched resource_type path action
