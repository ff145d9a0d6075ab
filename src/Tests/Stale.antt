-- ===== src/Tests/Stale.antt =====
-- A policy with entries in two modes, and the report of those that nothing called for.
use infrawright_dev.Assessment.Paths.{key}
use infrawright_dev.Metadata.DriftPolicy.{name, tolerates_plan_path}
use infrawright_dev.Metadata.Exact.{is_safe}
use infrawright_dev.Metadata.FirstMatch.{AllSafe}
use infrawright_dev.Metadata.Stale.{
  PolicyMode, projection_omit, plan_tolerate, DeclaredEntry, DeclaredResource, StaleEntry,
  StaleOptions, is_selected, type_of, modes_of, declared, entries_in, projection_omits,
  stale_entries,
}
use infrawright_dev.Metadata.Unused.{
  Question, omits, tolerates, ask_all, IsUnused, stale_entries-IsUnused_iff,
}
use infrawright_dev.Base.Sorting.{stable_sort}
use infrawright_dev.Base.{
  ℕ, true, none, some, List, [], ◌∷◌, map, ◌≡◌, ◌↔◌, refl, Text, codes, text_eq, Any, Bool-cases,
  inl, inr,
}

abbrev rule : Text
rule = codes "rule"

abbrev entry_for : ℕ → Text → DeclaredEntry
entry_for id field = record {
  entry = record { id = id; selector = name field ∷ [] };
  path = some field;
  target_path = none;
}

abbrev rule_entries : PolicyMode → List DeclaredEntry
rule_entries projection_omit = entry_for 0 (codes "a") ∷ entry_for 1 (codes "b") ∷ []
rule_entries plan_tolerate = entry_for 2 (codes "c") ∷ entry_for 3 (codes "d") ∷ []
rule_entries _ = []

abbrev resources : List DeclaredResource
resources = record { resource_type = rule; by_mode = rule_entries } ∷ []

abbrev questions : List Question
questions =
    omits rule (key (codes "b") ∷ [])
    ∷ tolerates rule (key (codes "c") ∷ []) (codes "update")
    ∷ tolerates rule (key (codes "d") ∷ []) (codes "delete")
    ∷ []

abbrev everything : StaleOptions
everything = record { resource_types = []; modes = [] }

abbrev unused_d : StaleEntry
unused_d = record { resource_type = rule; mode = plan_tolerate; path = codes "d" }

-- An update was tolerated at c, and b omitted.
stale_entries-questions :
    stale_entries resources (ask_all resources [] questions) everything
    ≡ record { resource_type = rule; mode = projection_omit; path = codes "a" } ∷ unused_d ∷ []
unfolding stale_entries ask_all projection_omits stable_sort text_eq tolerates_plan_path
stale_entries-questions = refl

resources-AllSafe : (t : Text) → AllSafe (entries_in (declared resources t plan_tolerate))
unfolding declared is_safe
resources-AllSafe t = elim (Bool-cases (text_eq rule t)) [
  | inl same ↦ rw (same, declared) (refl, (refl, tt))
  | inr other ↦ rw (other, declared) tt
]

stale_entries-IsUnused_iff_example :
    Any (λ e. e ≡ unused_d) (stale_entries resources (ask_all resources [] questions) everything)
    ↔ Any
        (λ t.
          (is_selected everything t ≡ true)
          × Any
              (λ m. Any (IsUnused resources [] questions unused_d t m) (declared resources t m))
              (modes_of everything.modes))
        (map type_of resources)
stale_entries-IsUnused_iff_example =
    stale_entries-IsUnused_iff resources resources-AllSafe [] questions everything unused_d
