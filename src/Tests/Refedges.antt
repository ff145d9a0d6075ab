-- ===== src/Tests/Refedges.antt =====
-- Runs of go/internal/refedges and of the dependency closure.
use infrawright_dev.Canonjson.Values.{Json, boolean, string, object, Fields, no_fields, field}
use infrawright_dev.Envgen.Selected.{IsClosure, cross_state_dependency_closure-IsClosure}
use infrawright_dev.Envgen.Closure.{cross_state_dependency_closure}
use infrawright_dev.Refedges.Acyclic.{cycle_path-Judged}
use infrawright_dev.Refedges.Cycles.{found, cycle_path}
use infrawright_dev.Refedges.Reported.{IsRootCycle, resolve-cycle}
use infrawright_dev.Refedges.Resolve.{Options, Resource, Topology, cycle, resolve}
use infrawright_dev.Refedges.Resolved.{IsResolved, resolve-IsResolved}
use infrawright_dev.Refedges.SetMaps.{SetMap}
use infrawright_dev.Refedges.Visited.{Judged}
use infrawright_dev.Refedges.Walks.{Reaches}
use infrawright_dev.Base.Sorting.{stable_sort}
use infrawright_dev.Base.{
  true, Option, none, some, List, [], ◌∷◌, ◌≡◌, refl, if◌then◌else◌, Text, codes, text_eq, text_lt,
  member, ok, err,
}

abbrev rule : Text
rule = codes "rule"

abbrev group : Text
group = codes "group"

abbrev reference_to : Text → Json
reference_to referent = object (field (codes "referent") (string referent) no_fields)

abbrev rule_references : Fields
rule_references =
    field rule (object (field (codes "group_id") (reference_to group) no_fields)) no_fields

abbrev both_references : Fields
both_references =
    field group (object (field (codes "rule_id") (reference_to rule) no_fields)) rule_references

abbrev generated_resource : Resource
generated_resource = record {
  provider = codes "zpa";
  registry = field (codes "generate") (boolean true) no_fields;
}

abbrev sample_resources : Text → Option Resource
sample_resources name =
    if text_eq name rule
    then some generated_resource
    else if text_eq name group
    then some generated_resource
    else none

abbrev sample_roots : Text → Option Text
sample_roots name =
    if text_eq name rule
    then some (codes "r")
    else if text_eq name group
    then some (codes "g")
    else none

abbrev options_for : Fields → Options
options_for references = record {
  provider_roots = λ _. none;
  active = codes "zpa" ∷ [];
  manifests =
      record {
        name = codes "zpa";
        data_fields = field (codes "references") (object references) no_fields;
      }
      ∷ [];
  resources = sample_resources;
  resource_roots = sample_roots;
}

abbrev rule_topology : Topology
rule_topology = record {
  edges =
      record {
        field_name = codes "group_id";
        referrer = rule;
        referrer_root = codes "r";
        referent = group;
        referent_root = codes "g";
      }
      ∷ [];
  dependencies_by_root = record { key = codes "r"; values = codes "g" ∷ [] } ∷ [];
  outputs_by_root = record { key = codes "g"; values = group ∷ [] } ∷ [];
}

resolve-rule : resolve (options_for rule_references) ≡ ok rule_topology
unfolding resolve stable_sort
resolve-rule = refl

resolve-both :
    resolve (options_for both_references)
    ≡ err (cycle (found (codes "g" ∷ codes "r" ∷ codes "g" ∷ [])))
unfolding resolve stable_sort
resolve-both = refl

resolve-IsResolved_example : IsResolved (options_for rule_references) rule_topology
resolve-IsResolved_example =
    resolve-IsResolved (options_for rule_references) rule_topology resolve-rule

resolve-cycle_example :
    (names : List Text) × (found (codes "g" ∷ codes "r" ∷ codes "g" ∷ []) ≡ found names)
    × IsRootCycle (options_for both_references) names
resolve-cycle_example =
    resolve-cycle (options_for both_references) (found (codes "g" ∷ codes "r" ∷ codes "g" ∷ []))
      resolve-both

abbrev three_roots : SetMap
three_roots =
    record { key = codes "a"; values = codes "b" ∷ [] }
    ∷ record { key = codes "b"; values = codes "c" ∷ codes "d" ∷ [] }
    ∷ record { key = codes "d"; values = codes "b" ∷ [] }
    ∷ []

cycle_path-three_roots :
    cycle_path three_roots ≡ err (found (codes "b" ∷ codes "d" ∷ codes "b" ∷ []))
unfolding cycle_path stable_sort member text_eq text_lt
cycle_path-three_roots = refl

cycle_path-Judged_example :
    Judged three_roots
      (λ _. (name : Text) → ¬ Reaches three_roots name name)
      (cycle_path three_roots)
cycle_path-Judged_example = cycle_path-Judged three_roots

cross_state_dependency_closure-d :
    cross_state_dependency_closure (codes "d" ∷ []) three_roots
    ≡ some (codes "b" ∷ codes "c" ∷ codes "d" ∷ [])
unfolding cross_state_dependency_closure stable_sort text_eq text_lt
cross_state_dependency_closure-d = refl

cross_state_dependency_closure-IsClosure_example :
    (names : List Text) × (cross_state_dependency_closure (codes "d" ∷ []) three_roots ≡ some names)
    × IsClosure three_roots (codes "d" ∷ []) names
cross_state_dependency_closure-IsClosure_example =
    cross_state_dependency_closure-IsClosure three_roots (codes "d" ∷ [])
