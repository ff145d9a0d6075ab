-- ===== src/Metadata/DriftPolicy.antt =====
-- go/internal/metadata/driftpolicy.go: the compiled indexes of `NewDriftPolicy` for `plan_tolerate`
-- entries, and `ToleratesPlanPath`. An entry comes with its path parsed (`ParsePolicyPath`).
use infrawright_dev.Base.{
  ℕ, suc, Bool, true, false, not, ◌&&◌, ◌||◌, List, [], ◌∷◌, ◌++◌, leb, ltb, ◌==◌, if◌then◌else◌,
  Text, codes, text_eq, Option, none, some,
}
use infrawright_dev.Assessment.Paths.{Segment, key, index, PlanPath}

-- `maxSafeInteger`: an index beyond it is parsed as a big integer.
abbrev pub max_safe_integer : ℕ
max_safe_integer = 9_007_199_254_740_991

-- A segment of a policy path: a name or the wildcard "*", an index, a big integer.
pub data PolicySegment : Type 0 where
  name : Text → PolicySegment
  position : ℕ → PolicySegment
  big : ℕ → PolicySegment

abbrev pub Selector : Type 0
Selector = List PolicySegment

-- `policySegmentEqual`
unfoldable pub policy_segment_eq : PolicySegment → PolicySegment → Bool
policy_segment_eq (name a) (name b) = text_eq a b
policy_segment_eq (position a) (position b) = a == b
policy_segment_eq (big a) (big b) = a == b
policy_segment_eq _ _ = false

-- Equal selectors are those with equal markers (`pathMarker`).
unfoldable pub selector_eq : Selector → Selector → Bool
unfolding policy_segment_eq
selector_eq [] [] = true
selector_eq (r ∷ rs) (s ∷ ss) = policy_segment_eq r s && selector_eq rs ss
selector_eq _ _ = false

abbrev pub policy_wildcard : Text
policy_wildcard = codes "*"

abbrev pub is_wildcard : PolicySegment → Bool
is_wildcard (name a) = text_eq a policy_wildcard
is_wildcard _ = false

unfoldable pub has_wildcard : Selector → Bool
has_wildcard [] = false
has_wildcard (s ∷ ss) = is_wildcard s || has_wildcard ss

unfoldable pub segment_matches : PolicySegment → Segment → Bool
segment_matches (name a) (index n) = text_eq a policy_wildcard
segment_matches (name a) (key k) = not (text_eq a policy_wildcard) && text_eq k a
segment_matches (position m) (index n) = n == m
segment_matches _ _ = false

-- `policySelectorMatches`
unfoldable pub policy_selector_matches : Selector → PlanPath → Bool
unfolding segment_matches
policy_selector_matches [] [] = true
policy_selector_matches (s ∷ ss) (a ∷ actual) =
    segment_matches s a && policy_selector_matches ss actual
policy_selector_matches _ _ = false

pub record PolicyEntry : Type 0 where
  pub id : ℕ
  pub selector : Selector

-- `compiledPolicyEntry`
pub record CompiledEntry : Type 0 where
  pub entry : PolicyEntry
  pub order : ℕ

-- `exactPlanTolerate`, a map by marker, and `wildcardPlanTolerate`, of a resource type.
pub record Indexes : Type 0 where
  pub exact : List CompiledEntry
  pub wildcard : List CompiledEntry

-- The entry of the map at a marker.
unfoldable pub find_exact : List CompiledEntry → Selector → Option CompiledEntry
unfolding selector_eq
find_exact [] marker = none
find_exact (c ∷ cs) marker =
    let rest = find_exact cs marker in if selector_eq c.entry.selector marker then some c else rest

abbrev pub exists : Option CompiledEntry → Bool
exists none = false
exists (some c) = true

abbrev pub at_order : PolicyEntry → ℕ → CompiledEntry
at_order e order = record { entry = e; order = order }

-- One round of the loop over the entries of a resource type.
unfoldable pub index_entry : ℕ → Indexes → PolicyEntry → Indexes
unfolding has_wildcard find_exact
index_entry order ix e =
    if has_wildcard e.selector
    then record ix { wildcard = ix.wildcard ++ at_order e order ∷ [] }
    else if exists (find_exact ix.exact e.selector)
    then ix
    else record ix { exact = ix.exact ++ at_order e order ∷ [] }

unfoldable pub index_entries : ℕ → Indexes → List PolicyEntry → Indexes
unfolding index_entry
index_entries order ix [] = ix
index_entries order ix (e ∷ es) = index_entries (suc order) (index_entry order ix e) es

abbrev pub no_indexes : Indexes
no_indexes = record { exact = []; wildcard = [] }

-- The `plan_tolerate` entries of a resource type, in the order of their declaration.
pub record ResourceEntries : Type 0 where
  pub resource_type : Text
  pub entries : List PolicyEntry

-- A compiled policy, with the IDs of the entries that have matched.
pub record DriftPolicy : Type 0 where
  pub sources : List ResourceEntries
  pub matched : List ℕ

unfoldable pub entries_of : List ResourceEntries → Text → List PolicyEntry
entries_of [] resource_type = []
entries_of (r ∷ rs) resource_type =
    let rest = entries_of rs resource_type in
    if text_eq r.resource_type resource_type then r.entries else rest

-- The indexes of a resource type; those of a type without entries are empty.
unfoldable pub indexes_of : DriftPolicy → Text → Indexes
unfolding index_entries entries_of
indexes_of policy resource_type =
    index_entries 0 no_indexes (entries_of policy.sources resource_type)

-- `concretePathMarker`: an index that is not safe has no marker.
unfoldable pub concrete_path : PlanPath → Option Selector
concrete_path [] = some []
concrete_path (key k ∷ path) = elim (concrete_path path) [
  | none ↦ none
  | some rest ↦ some (name k ∷ rest)
]
concrete_path (index n ∷ path) = elim (concrete_path path) [
  | none ↦ none
  | some rest ↦ if leb n max_safe_integer then some (position n ∷ rest) else none
]

unfoldable pub keep_if_matches : PlanPath → Option CompiledEntry → Option CompiledEntry
unfolding policy_selector_matches
keep_if_matches path none = none
keep_if_matches path (some c) =
    if policy_selector_matches c.entry.selector path then some c else none

-- The exact entry that matches.
unfoldable pub exact_match : List CompiledEntry → PlanPath → Option CompiledEntry
unfolding concrete_path keep_if_matches find_exact
exact_match exact path = elim (concrete_path path) [
  | none ↦ none
  | some marker ↦ keep_if_matches path (find_exact exact marker)
]

-- `matched == nil || candidate.order < matched.order`
abbrev pub is_before : CompiledEntry → Option CompiledEntry → Bool
is_before c none = true
is_before c (some m) = ltb c.order m.order

-- The loop over the wildcard entries, with its variable `matched`.
unfoldable pub best_match :
    Option CompiledEntry → List CompiledEntry → PlanPath → Option CompiledEntry
unfolding policy_selector_matches
best_match matched [] path = matched
best_match matched (c ∷ cs) path =
    best_match
      (if policy_selector_matches c.entry.selector path && is_before c matched
        then some c
        else matched)
      cs path

unfoldable pub matching_entry : Indexes → PlanPath → Option CompiledEntry
unfolding exact_match best_match
matching_entry ix path = best_match (exact_match ix.exact path) ix.wildcard path

-- `toleratesPlanPath`: the answer, and the policy with the entry marked.
unfoldable pub tolerates_plan_path : DriftPolicy → Text → PlanPath → Text → Bool × DriftPolicy
unfolding indexes_of matching_entry
tolerates_plan_path policy resource_type path action =
    if not (text_eq action (codes "update"))
    then (false, policy)
    else elim (matching_entry (indexes_of policy resource_type) path) [
      | none ↦ (false, policy)
      | some c ↦ (true, record policy { matched = c.entry.id ∷ policy.matched })
    ]
