-- ===== src/Envgen/Selected.antt =====
-- go/internal/envgen/reference_topology.go: what `CrossStateDependencyClosure` selects.
use infrawright_dev.Envgen.Closure.{Closing, select, close, cross_state_dependency_closure}
use infrawright_dev.Refedges.Visited.{free_le}
use infrawright_dev.Refedges.Walks.{DependsOn}
use infrawright_dev.Refedges.SetMaps.{
  SetMap, targets, add_names, node_set, sorted, member-sorted, is_distinct-sorted, member-add_names,
  is_distinct-add_names, node_set-target,
}
use infrawright_dev.Base.Sorting.{IsSorted, stable_sort-IsSorted}
use infrawright_dev.Envgen.Pending.{
  select-selected, select-pending, weight, select-weight, select-is_distinct,
}
use infrawright_dev.Base.{
  ℕ, zero, suc, ◌<◌, true, false, not, ◌||◌, ◌&&◌, some, List, [], ◌∷◌, ◌≡◌, refl, sym, ap, subst,
  ◌↔◌, ◌∙◌, arith, Text, text_lt, text_lt_asymm, is_distinct, text_eq, text_eq_iff, text_eq_refl,
  member, Bool-cases, or-eq-true, inl, inr,
}

pub data Needed (dependencies : SetMap) (roots : List Text) : Text → Type 0 where
  requested : {x : Text} → member x roots ≡ true → Needed dependencies roots x
  required :
      {x y : Text}
      → Needed dependencies roots x
      → DependsOn dependencies x y
      → Needed dependencies roots y

module _ (dependencies : SetMap) (roots : List Text) where
  all_nodes : List Text
  all_nodes = node_set dependencies []

  -- What is selected is needed, the roots are selected, and what a selected root depends on is
  -- selected unless the root is pending.
  record Inv (c : Closing) : Type 0 where
    sound : (x : Text) → member x c.selected ≡ true → Needed dependencies roots x
    started : (x : Text) → member x roots ≡ true → member x c.selected ≡ true
    waiting : (x : Text) → member x c.pending ≡ true → member x c.selected ≡ true
    closed :
        (x y : Text)
        → member x c.selected ≡ true
        → DependsOn dependencies x y
        → member x c.pending ≡ false
        → member y c.selected ≡ true

  round-Inv :
      (current : Text) (selected pending : List Text)
      → Inv (record { selected = selected; pending = current ∷ pending })
      → Inv (
          select
            (sorted (targets dependencies current))
            (record { selected = selected; pending = pending }))
  unfolding member
  round-Inv current selected pending inv = record {
    sound = λ x m. elim (or-eq-true _ _ (sym (chosen x) ∙ m)) [
      | inl d ↦
          required (inv.sound current (inv.waiting current (ground (arith, text_eq_refl current))))
            d
      | inr k ↦ inv.sound x k
    ];
    started = λ x m. ground (arith, chosen x, inv.started x m);
    waiting = λ x m. ground (arith, chosen x, queued x, inv.waiting x, m);
    closed = λ x y m d w. elim (Bool-cases (text_eq x current)) [
      | inl e ↦
          ground (
            arith,
            chosen y,
            subst (λ z. DependsOn dependencies z y) ((text_eq_iff x current).0 e) d,
          )
      | inr e ↦ ground (arith, chosen x, queued x, chosen y, inv.closed x y, d, w, m, e)
    ];
  }
    where
      names : List Text
      names = sorted (targets dependencies current)

      rest : Closing
      rest = record { selected = selected; pending = pending }

      chosen :
          (x : Text)
          → member x (select names rest).selected
            ≡ (member x (targets dependencies current) || member x selected)
      chosen x =
          select-selected names rest x
          ∙ ap (λ b. b || member x selected) (member-sorted x (targets dependencies current))

      queued :
          (x : Text)
          → member x (select names rest).pending ≡ (
              member x pending
              || (member x (targets dependencies current) && not (member x selected)))
      queued x =
          select-pending names rest x
          ∙ ap (λ b. member x pending || (b && not (member x selected)))
              (member-sorted x (targets dependencies current))

  -- The closure is the set of the names that are needed.
  abbrev pub IsClosure : List Text → Type 0
  IsClosure names =
      ((x : Text) → (member x names ≡ true) ↔ Needed dependencies roots x)
      × (is_distinct names ≡ true)
      × IsSorted text_lt names

  sorted-IsClosure :
      (selected : List Text)
      → Inv (record { selected = selected; pending = [] })
      → is_distinct selected ≡ true
      → IsClosure (sorted selected)
  unfolding sorted member
  sorted-IsClosure selected inv distinct = (
    λ x. (
      λ m. inv.sound x (sym (member-sorted x selected) ∙ m),
      λ n. member-sorted x selected ∙ reached n,
    ),
    is_distinct-sorted selected ∙ distinct,
    stable_sort-IsSorted text_lt text_lt_asymm selected,
  )
    where
      reached : {x : Text} → Needed dependencies roots x → member x selected ≡ true
      reached (requested {x = x} m) = inv.started x m
      reached (required {x = x} {y = y} n d) = inv.closed x y (reached n) d refl

  round-bound :
      (current : Text) (selected pending : List Text)
      → weight all_nodes (
          select
            (sorted (targets dependencies current))
            (record { selected = selected; pending = pending }))
        < suc (weight all_nodes (record { selected = selected; pending = pending }))
  unfolding all_nodes
  round-bound current selected pending =
      select-weight all_nodes (sorted (targets dependencies current))
        (record { selected = selected; pending = pending })
        λ d m.
          node_set-target dependencies [] current d
            (sym (member-sorted d (targets dependencies current)) ∙ m)

  close-IsClosure :
      (fuel : ℕ) (selected pending : List Text)
      → Inv (record { selected = selected; pending = pending })
      → is_distinct selected ≡ true
      → weight all_nodes (record { selected = selected; pending = pending }) < suc fuel
      → (names : List Text) × (close dependencies fuel selected pending ≡ some names)
        × IsClosure names
  unfolding close weight
  close-IsClosure fuel selected [] inv distinct bound =
      (sorted selected, refl, sorted-IsClosure selected inv distinct)
  close-IsClosure zero selected (current ∷ pending) inv distinct bound =
      absurd (omega (arith, bound))
  close-IsClosure (suc fuel) selected (current ∷ pending) inv distinct bound =
      close-IsClosure fuel next.selected next.pending (round-Inv current selected pending inv)
        (select-is_distinct (sorted (targets dependencies current))
          (record { selected = selected; pending = pending }) distinct)
        (omega (arith, bound, round-bound current selected pending))
    where
      next : Closing
      next =
          select (sorted (targets dependencies current))
            (record { selected = selected; pending = pending })

  initial-Inv :
      Inv (record { selected = add_names roots []; pending = sorted (add_names roots []) })
  unfolding member
  initial-Inv = record {
    sound = λ x m. requested (ground (arith, member-add_names x roots [], m));
    started = λ x m. ground (arith, member-add_names x roots [], m);
    waiting = λ x m. sym (member-sorted x (add_names roots [])) ∙ m;
    closed = λ x y m d w. ground (arith, member-sorted x (add_names roots []), m, w);
  }

  -- CrossStateDependencyClosure ends on any selection and any dependencies. Its result holds the
  -- selected roots and all that they depend on, directly or not, no other, each once and in order.
  pub cross_state_dependency_closure-IsClosure :
      (names : List Text) × (cross_state_dependency_closure roots dependencies ≡ some names)
      × IsClosure names
  unfolding cross_state_dependency_closure all_nodes weight is_distinct
  cross_state_dependency_closure-IsClosure =
      close-IsClosure _ (add_names roots []) (sorted (add_names roots [])) initial-Inv
        (is_distinct-add_names roots [] refl)
        (omega (arith, free_le (add_names roots []) (node_set dependencies [])))
