-- ===== src/Envgen/Closure.antt =====
-- go/internal/envgen/reference_topology.go: `CrossStateDependencyClosure`, the roots that are selected
-- and all that they depend on.
use infrawright_dev.Refedges.SetMaps.{SetMap, targets, add_names, node_set, sorted}
use infrawright_dev.Base.{
  ℕ, zero, suc, ◌+◌, Option, none, some, List, [], ◌∷◌, ◌++◌, if◌then◌else◌, length, Text, member,
}

pub record Closing : Type 0 where
  pub selected : List Text
  pub pending : List Text

-- A dependency that is new is selected and joins `pending`, which is sorted again.
unfoldable pub select_one : Text → Closing → Closing
unfolding member sorted
select_one dependency c = if member dependency c.selected then c else record {
  selected = dependency ∷ c.selected;
  pending = sorted (c.pending ++ dependency ∷ []);
}

-- The loop over the dependencies of a root.
unfoldable pub select : List Text → Closing → Closing
unfolding select_one
select [] c = c
select (d ∷ ds) c = select ds (select_one d c)

-- The loop over the roots that are pending.
unfoldable pub close : SetMap → ℕ → List Text → List Text → Option (List Text)
unfolding select targets sorted
close dependencies fuel selected [] = some (sorted selected)
close dependencies zero selected (current ∷ pending) = none
close dependencies (suc fuel) selected (current ∷ pending) =
    let c =
      select (sorted (targets dependencies current))
        (record { selected = selected; pending = pending }) in
    close dependencies fuel c.selected c.pending

-- Each round takes one root from `pending`, and each node comes there once.
unfoldable pub cross_state_dependency_closure : List Text → SetMap → Option (List Text)
unfolding close add_names sorted node_set
cross_state_dependency_closure roots dependencies =
    let selected = add_names roots [] in
    let pending = sorted selected in
    close dependencies (length pending + length (node_set dependencies [])) selected pending
