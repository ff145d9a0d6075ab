-- ===== src/Refedges/Cycles.antt =====
-- go/internal/refedges/refedges.go: `cyclePath`, the depth-first search for a cycle. Its state is the
-- map of the names seen, as a function, and the stack, whose top is at the end as in the slice.
-- Fuel bounds the depth of the calls of `visit`.
use infrawright_dev.Refedges.SetMaps.{SetMap, targets, sorted, node_set}
use infrawright_dev.Base.{
  ℕ, zero, suc, Option, none, some, List, [], ◌∷◌, ◌++◌, if◌then◌else◌, length, Text, text_eq,
  Result, ok, err, ◌>>=◌,
}

pub data Mark : Type 0 where
  visiting : Mark
  finished : Mark

pub record Search : Type 0 where
  pub state : Text → Option Mark
  pub stack : List Text

-- Why a search ends early: a cycle, the panic of a slice from -1, or no more fuel.
pub data Stop : Type 0 where
  found : List Text → Stop
  out_of_range : Stop
  out_of_fuel : Stop

-- `indexOfString`; -1 is none.
unfoldable pub index_of_string : List Text → Text → Option ℕ
index_of_string [] target = none
index_of_string (value ∷ values) target =
    let later = index_of_string values target in
    if text_eq value target then some 0 else elim later [ some i ↦ some (suc i) | none ↦ none ]

-- `values[start:]`
unfoldable pub from_index : ℕ → List Text → List Text
from_index zero values = values
from_index (suc n) [] = []
from_index (suc n) (value ∷ values) = from_index n values

-- `stack[:len(stack)-1]`
unfoldable pub drop_last : List Text → List Text
drop_last [] = []
drop_last (v ∷ []) = []
drop_last (v ∷ w ∷ vs) = v ∷ drop_last (w ∷ vs)

unfoldable pub put : Text → Mark → (Text → Option Mark) → Text → Option Mark
put root mark state name = if text_eq name root then some mark else state name

-- What `visit` does before its loop and after it.
unfoldable pub enter : Text → Search → Search
unfolding put
enter root s = record { state = put root visiting s.state; stack = s.stack ++ root ∷ [] }

unfoldable pub leave : Text → Search → Search
unfolding put drop_last
leave root s = record { state = put root finished s.state; stack = drop_last s.stack }

-- `append(stack[start:], dependency)`
unfoldable pub closed_path : List Text → Text → Stop
unfolding index_of_string from_index
closed_path stack dependency = elim (index_of_string stack dependency) [
  | some start ↦ found (from_index start stack ++ dependency ∷ [])
  | none ↦ out_of_range
]

-- The loop over the dependencies of a name, which calls `visit`.
unfoldable pub follow :
    (Text → Search → Result Stop Search) → List Text → Search → Result Stop Search
unfolding closed_path
follow visit [] s = ok s
follow visit (d ∷ ds) s = elim (s.state d) [
  | some visiting ↦ err (closed_path s.stack d)
  | some finished ↦ follow visit ds s
  | none ↦ visit d s >>= follow visit ds
]

module _ (dependencies : SetMap) where
  unfoldable pub visit : ℕ → Text → Search → Result Stop Search
  unfolding follow enter leave targets sorted
  visit zero root s = err out_of_fuel
  visit (suc fuel) root s =
      follow (visit fuel) (sorted (targets dependencies root)) (enter root s) >>= λ searched.
      ok (leave root searched)

  -- The loop over all names.
  unfoldable pub visit_roots : ℕ → List Text → Search → Result Stop Search
  unfolding visit
  visit_roots fuel [] s = ok s
  visit_roots fuel (root ∷ rest) s = elim (s.state root) [
    | some _ ↦ visit_roots fuel rest s
    | none ↦ visit fuel root s >>= visit_roots fuel rest
  ]

  unfoldable pub nodes : List Text
  unfolding sorted node_set
  nodes = sorted (node_set dependencies [])

  -- An error is a cycle, a value the search that ends without one.
  unfoldable pub cycle_path : Result Stop Search
  unfolding visit_roots nodes
  cycle_path = visit_roots (suc (length nodes)) nodes (record { state = λ _. none; stack = [] })
