-- ===== src/Metadata/Stale.antt =====
-- go/internal/metadata/driftpolicy.go: `ProjectionOmits`, `StaleEntries` and the set of matched IDs
-- that they share with `ToleratesPlanPath`. The entries of a policy do not change, the set does. The
-- policy is not nil.
use infrawright_dev.Assessment.Paths.{PlanPath}
use infrawright_dev.Metadata.DriftPolicy.{
  PolicyEntry, ResourceEntries, DriftPolicy, policy_selector_matches,
}
use infrawright_dev.Refedges.SetMaps.{sorted}
use infrawright_dev.Base.{
  ℕ, Bool, true, false, ◌||◌, Option, none, some, List, [], ◌∷◌, ◌++◌, map, ◌==◌, if◌then◌else◌,
  Text, text_eq, member,
}

pub data PolicyMode : Type 0 where
  projection_omit : PolicyMode
  projection_sync : PolicyMode
  projection_fill : PolicyMode
  projection_omit_if : PolicyMode
  plan_tolerate : PolicyMode

abbrev pub policy_modes : List PolicyMode
policy_modes =
    projection_omit ∷ projection_sync ∷ projection_fill ∷ projection_omit_if ∷ plan_tolerate ∷ []

-- A compiled entry with the fields of its object that `StaleEntries` reads.
pub record DeclaredEntry : Type 0 where
  pub entry : PolicyEntry
  pub path : Option Text
  pub target_path : Option Text

-- A resource type in `entriesByResource`.
pub record DeclaredResource : Type 0 where
  pub resource_type : Text
  pub by_mode : PolicyMode → List DeclaredEntry

pub record StaleEntry : Type 0 where
  pub resource_type : Text
  pub mode : PolicyMode
  pub path : Text

-- An empty list stands for all resource types, or for all modes.
pub record StaleOptions : Type 0 where
  pub resource_types : List Text
  pub modes : List PolicyMode

unfoldable pub is_matched : ℕ → List ℕ → Bool
is_matched id [] = false
is_matched id (m ∷ matched) = id == m || is_matched id matched

abbrev pub text_or : Option Text → Text → Text
text_or (some text) other = text
text_or none other = other

-- The path of an entry, or else its target path.
abbrev pub stale_path : DeclaredEntry → Text
stale_path d = text_or d.path (text_or d.target_path [])

abbrev pub type_of : DeclaredResource → Text
type_of r = r.resource_type

unfoldable pub is_selected : StaleOptions → Text → Bool
unfolding member
is_selected options resource_type = elim options.resource_types [
  | [] ↦ true
  | t ∷ ts ↦ member resource_type (t ∷ ts)
]

abbrev pub modes_of : List PolicyMode → List PolicyMode
modes_of [] = policy_modes
modes_of (m ∷ ms) = m ∷ ms

-- `entriesByResource[resourceType][mode]`
unfoldable pub declared : List DeclaredResource → Text → PolicyMode → List DeclaredEntry
declared [] resource_type mode = []
declared (r ∷ rs) resource_type mode =
    let rest = declared rs resource_type mode in
    if text_eq r.resource_type resource_type then r.by_mode mode else rest

-- The loop of `projectionOmits`: the first entry that matches is marked.
unfoldable pub omit_loop : List ℕ → List DeclaredEntry → PlanPath → Bool × List ℕ
omit_loop matched [] path = (false, matched)
omit_loop matched (d ∷ ds) path =
    let rest = omit_loop matched ds path in
    if policy_selector_matches d.entry.selector path then (true, d.entry.id ∷ matched) else rest

abbrev pub entries_in : List DeclaredEntry → List PolicyEntry
entries_in [] = []
entries_in (d ∷ ds) = d.entry ∷ entries_in ds

abbrev pub tolerated : List DeclaredResource → List ResourceEntries
tolerated [] = []
tolerated (r ∷ rs) =
    record { resource_type = r.resource_type; entries = entries_in (r.by_mode plan_tolerate) }
    ∷ tolerated rs

module _ (resources : List DeclaredResource) where
  unfoldable pub projection_omits : List ℕ → Text → PlanPath → Bool × List ℕ
  unfolding declared omit_loop
  projection_omits matched resource_type path =
      omit_loop matched (declared resources resource_type projection_omit) path

  abbrev pub policy_of : List ℕ → DriftPolicy
  policy_of matched = record { sources = tolerated resources; matched = matched }

  -- The loop over the entries of a mode.
  unfoldable pub stale_in : List ℕ → Text → PolicyMode → List DeclaredEntry → List StaleEntry
  unfolding is_matched
  stale_in matched resource_type mode [] = []
  stale_in matched resource_type mode (d ∷ ds) =
      let rest = stale_in matched resource_type mode ds in
      if is_matched d.entry.id matched
      then rest
      else record { resource_type = resource_type; mode = mode; path = stale_path d } ∷ rest

  unfoldable pub stale_modes : List ℕ → Text → List PolicyMode → List StaleEntry
  unfolding stale_in declared
  stale_modes matched resource_type [] = []
  stale_modes matched resource_type (mode ∷ modes) =
      stale_in matched resource_type mode (declared resources resource_type mode)
      ++ stale_modes matched resource_type modes

  unfoldable pub stale_types : List ℕ → StaleOptions → List PolicyMode → List Text → List StaleEntry
  unfolding stale_modes is_selected
  stale_types matched options modes [] = []
  stale_types matched options modes (t ∷ ts) =
      let rest = stale_types matched options modes ts in
      if is_selected options t then stale_modes matched t modes ++ rest else rest

  unfoldable pub stale_entries : List ℕ → StaleOptions → List StaleEntry
  unfolding stale_types sorted
  stale_entries matched options =
      stale_types matched options (modes_of options.modes) (sorted (map type_of resources))
