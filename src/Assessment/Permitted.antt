-- ===== src/Assessment/Permitted.antt =====
-- go/internal/assessment/eval.go with go/internal/metadata/driftpolicy.go: `classifyChange` with
-- `ToleratesPlanPath` of a compiled drift policy as its policy.
use infrawright_dev.Base.{
  ℕ, suc, Bool, true, false, List, [], ◌∷◌, ◌≡◌, ◌≢◌, ◌↔◌, ◌⊎◌, sym, ap, ◌∙◌, arith, Text, codes,
  text_eq, All, Any, Option, some,
}
use infrawright_dev.Canonjson.Values.{Equality}
use infrawright_dev.Assessment.Paths.{PlanPath}
use infrawright_dev.Assessment.Classify.{
  blocked, ChangeRecord, Policy, TypeSets, has_action, tolerates, AssessedPlan, classify_plan,
}
use infrawright_dev.Assessment.Acceptance.{
  paths_of_update, IsExplained, IsImport, IsUpdate, IsAccepted,
}
use infrawright_dev.Assessment.Verdict.{counted, classify_plan-IsAccepted_iff}
use infrawright_dev.Metadata.DriftPolicy.{
  PolicyEntry, ResourceEntries, DriftPolicy, entries_of, policy_selector_matches,
  tolerates_plan_path,
}
use infrawright_dev.Metadata.Tolerance.{first_match}
use infrawright_dev.Metadata.FirstMatch.{AllSafe, mark, tolerates_plan_path-first_match}

-- The answers of a policy.
unfoldable pub answers : DriftPolicy → Policy
unfolding tolerates_plan_path
answers p resource_type path action = (tolerates_plan_path p resource_type path action).0

-- The selector of an entry of the resource type matches the path.
abbrev pub IsMatched : DriftPolicy → Text → PlanPath → Type 0
IsMatched p resource_type path =
    Any (λ e. policy_selector_matches e.selector path ≡ true) (entries_of p.sources resource_type)

-- The indexes in the selectors are safe.
abbrev pub IsSafePolicy : DriftPolicy → Type 0
IsSafePolicy p = All (λ r. AllSafe r.entries) p.sources

entries_of-AllSafe :
    (rs : List ResourceEntries) (resource_type : Text)
    → All (λ r. AllSafe r.entries) rs
    → AllSafe (entries_of rs resource_type)
unfolding entries_of
entries_of-AllSafe [] resource_type h = tt
entries_of-AllSafe (r ∷ rs) resource_type h =
    ground (arith, entries_of-AllSafe rs resource_type h.1, h.0)

mark-first_match_iff :
    (p : DriftPolicy) (n : ℕ) (es : List PolicyEntry) (path : PlanPath)
    → ((mark p (first_match n es path)).0 ≡ true)
      ↔ Any (λ e. policy_selector_matches e.selector path ≡ true) es
unfolding first_match
mark-first_match_iff p n [] path = ground arith
mark-first_match_iff p n (e ∷ es) path = ground (arith, mark-first_match_iff p (suc n) es path)

module _ (p : DriftPolicy) (eq : Equality) (types : List TypeSets) where
  -- An update, and neither a deletion nor a creation, of which each path is matched by an entry of
  -- the policy, or which set equality explains.
  pub record IsPermittedUpdate (r : ChangeRecord) : Type 0 where
    pub updates : has_action (codes "update") r.change.actions ≡ true
    pub keeps : has_action (codes "delete") r.change.actions ≡ false
    pub old : has_action (codes "create") r.change.actions ≡ false
    pub allowed :
        All
          (λ path. IsMatched p r.resource_type path)
          (paths_of_update eq (some (answers p)) types r)
        ⊎ IsExplained eq (some (answers p)) types r

  abbrev pub IsPermitted : ChangeRecord → Type 0
  IsPermitted r =
      All (λ a. a ≡ codes "no-op") r.change.actions
      ⊎ (IsImport eq (some (answers p)) types r ⊎ IsPermittedUpdate r)

module _ (p : DriftPolicy) (safe : IsSafePolicy p) where
  answers-first_match :
      (resource_type : Text) (path : PlanPath)
      → answers p resource_type path (codes "update")
        ≡ (mark p (first_match 0 (entries_of p.sources resource_type) path)).0
  unfolding answers text_eq
  answers-first_match resource_type path =
      ap (λ x. x.0)
        (tolerates_plan_path-first_match p resource_type path (codes "update")
          (entries_of-AllSafe p.sources resource_type safe))

  tolerates_iff :
      (resource_type : Text) (path : PlanPath)
      → (tolerates (some (answers p)) resource_type path ≡ true) ↔ IsMatched p resource_type path
  unfolding tolerates
  tolerates_iff resource_type path =
      let answer = answers-first_match resource_type path in
      let search = mark-first_match_iff p 0 (entries_of p.sources resource_type) path in
      (λ h. search.0 (sym answer ∙ h), λ h. answer ∙ search.1 h)

  module _ (eq : Equality) (types : List TypeSets) where
    each_iff :
        {A : Type 0} {P Q : A → Type 0}
        → ((x : A) → P x ↔ Q x)
        → (xs : List A) → All P xs ↔ All Q xs
    each_iff f [] = ground arith
    each_iff f (x ∷ xs) = ground (arith, f x, each_iff f xs)

    IsUpdate-IsPermittedUpdate_iff :
        (r : ChangeRecord) → IsUpdate eq (some (answers p)) types r ↔ IsPermittedUpdate p eq types r
    IsUpdate-IsPermittedUpdate_iff r =
        let each =
          each_iff (tolerates_iff r.resource_type)
            (paths_of_update eq (some (answers p)) types r) in
        (
          (λ u. record {
            updates = u.updates;
            keeps = u.keeps;
            old = u.old;
            allowed = ground (arith, each, u.allowed);
          }),
          (λ u. record {
            updates = u.updates;
            keeps = u.keeps;
            old = u.old;
            allowed = ground (arith, each, u.allowed);
          }),
        )

    IsAccepted-IsPermitted_iff :
        (r : ChangeRecord) → IsAccepted eq (some (answers p)) types r ↔ IsPermitted p eq types r
    IsAccepted-IsPermitted_iff r = ground (arith, IsUpdate-IsPermittedUpdate_iff r)

    -- With a compiled policy, a plan is not blocked exactly when each record that counts does nothing,
    -- imports a resource, or is an update, and neither a deletion nor a creation, of which each path is
    -- matched by the selector of an entry of its resource type, or which set equality explains. The
    -- indexes in the selectors are taken to be safe.
    pub classify_plan-IsPermitted_iff :
        (scope : Option (List Text)) (tolerate_refresh_drift : Bool) (plan : AssessedPlan)
        → ((classify_plan eq (some (answers p)) types scope tolerate_refresh_drift plan).status
            ≢ blocked)
          ↔ All (IsPermitted p eq types) (counted scope tolerate_refresh_drift plan)
    classify_plan-IsPermitted_iff scope tolerate_refresh_drift plan =
        let verdict =
          classify_plan-IsAccepted_iff eq (some (answers p)) types scope tolerate_refresh_drift
            plan in
        let each =
          each_iff IsAccepted-IsPermitted_iff (counted scope tolerate_refresh_drift plan) in
        (λ h. each.0 (verdict.0 h), λ h. verdict.1 (each.1 h))
