-- ===== src/Tests/Permitted.antt =====
-- A plan with an update that a compiled policy permits.
use infrawright_dev.Base.{false, [], ◌∷◌, ◌≢◌, ◌↔◌, refl, codes, All, none, some}
use infrawright_dev.Assessment.Classify.{blocked, classify_plan}
use infrawright_dev.Assessment.Permitted.{
  answers, IsSafePolicy, IsPermitted, classify_plan-IsPermitted_iff,
}
use infrawright_dev.Assessment.Verdict.{counted}
use infrawright_dev.Metadata.DriftPolicy.{name, position, DriftPolicy}
use infrawright_dev.Metadata.Exact.{is_safe}
use infrawright_dev.Tests.Assessment.{spelled, types, plan}

abbrev url_policy : DriftPolicy
url_policy = record {
  sources =
      record {
        resource_type = codes "zia_rule";
        entries =
            record { id = 1; selector = name (codes "urls") ∷ [] }
            ∷ record { id = 2; selector = name (codes "rows") ∷ position 4 ∷ [] }
            ∷ [];
      }
      ∷ [];
  matched = [];
}

url_policy-IsSafePolicy : IsSafePolicy url_policy
unfolding is_safe
url_policy-IsSafePolicy = ((refl, (refl, tt)), tt)

classify_plan-IsPermitted_iff_example :
    ((classify_plan spelled (some (answers url_policy)) types none false plan).status ≢ blocked)
    ↔ All (IsPermitted url_policy spelled types) (counted none false plan)
classify_plan-IsPermitted_iff_example =
    classify_plan-IsPermitted_iff url_policy url_policy-IsSafePolicy spelled types none false plan
