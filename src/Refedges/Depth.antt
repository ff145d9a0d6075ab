-- ===== src/Refedges/Depth.antt =====
-- go/internal/refedges/refedges.go: the invariant of `visit`, and its fuel.
use infrawright_dev.Refedges.SetMaps.{
  SetMap, targets, sorted, node_set, node_set-target, member-sorted,
}
use infrawright_dev.Refedges.Cycles.{
  finished, Search, drop_last, put, enter, leave, follow, visit, nodes,
}
use infrawright_dev.Refedges.Walks.{IsWalk, IsWalk-snoc}
use infrawright_dev.Refedges.Visited.{
  free, free-push_lt, drop_last-snoc, Inv, Grows, Kept, Judged-bind, all_nodes, Visits, AllFinished,
  Followed, Next, follow-Judged,
}
use infrawright_dev.Base.{
  ℕ, zero, suc, ◌<◌, true, none, some, List, [], ◌∷◌, ◌++◌, ◌≡◌, sym, ap, subst, ◌∙◌, arith, Text,
  text_eq_iff, text_eq_refl, member, member-append, ok,
}

module _ (dependencies : SetMap) where
  -- Entering a name that is new keeps the invariant.
  enter-Inv :
      (root : Text) (s : Search)
      → Inv dependencies s
      → s.state root ≡ none
      → IsWalk dependencies (s.stack ++ root ∷ [])
      → Inv dependencies (enter root s)
  unfolding enter put member
  enter-Inv root s inv new w = record {
    order = inv.order;
    ordered = inv.ordered;
    done = λ x. ground (arith, inv.done x, text_eq_iff x root, new);
    entered = λ x.
        ground (arith, inv.entered x, text_eq_iff x root, new, member-append x s.stack (root ∷ []));
    walk = w;
  }

  -- So does leaving it when its dependencies are finished.
  leave-Inv :
      (root : Text) (s t : Search)
      → Inv dependencies s
      → s.state root ≡ none
      → Inv dependencies t
      → t.stack ≡ s.stack ++ root ∷ []
      → AllFinished dependencies (sorted (targets dependencies root)) t
      → Inv dependencies (leave root t)
  unfolding leave put member AllFinished
  leave-Inv root s t inv new entered_inv stack_eq all_done = record {
    order = root ∷ entered_inv.order;
    ordered = (
      ground (arith, entered_inv.done root, entered_inv.entered root, root_open),
      (λ d k.
          (entered_inv.done d).0 (all_done d (member-sorted d (targets dependencies root) ∙ k))),
      entered_inv.ordered,
    );
    done = λ x. ground (arith, entered_inv.done x, text_eq_iff x root);
    entered = λ x. ground (
      arith,
      ap (member x) stack_left,
      ap (member x) stack_eq,
      inv.entered x,
      inv.entered root,
      new,
      entered_inv.entered x,
      text_eq_iff x root,
      member-append x s.stack (root ∷ []),
    );
    walk = subst (IsWalk dependencies) (sym stack_left) inv.walk;
  }
    where
      stack_left : drop_last t.stack ≡ s.stack
      stack_left = ap drop_last stack_eq ∙ drop_last-snoc s.stack root

      root_open : member root t.stack ≡ true
      root_open =
          ap (member root) stack_eq
          ∙ member-append root s.stack (root ∷ [])
          ∙ ground (arith, text_eq_refl root)

  -- The dependencies of a name that is entered can be entered next.
  enter-Next :
      (root : Text) (s : Search)
      → IsWalk dependencies (s.stack ++ root ∷ [])
      → Next dependencies (s.stack ++ root ∷ []) (sorted (targets dependencies root))
  unfolding Next all_nodes nodes
  enter-Next root s w d m =
      let depends = sym (member-sorted d (targets dependencies root)) ∙ m in
      (
        IsWalk-snoc dependencies s.stack root d w depends,
        member-sorted d (node_set dependencies []) ∙ node_set-target dependencies [] root d depends,
      )

  leave-Kept :
      (root : Text) (s t : Search)
      → Inv dependencies s
      → s.state root ≡ none
      → Kept dependencies (enter root s) t
      → AllFinished dependencies (sorted (targets dependencies root)) t
      → Kept dependencies s (leave root t) × ((leave root t).state root ≡ some finished)
  unfolding Kept Grows enter leave put
  leave-Kept root s t inv new kept all_done = (
    (
      leave-Inv root s t inv new kept.0 kept.1 all_done,
      ap drop_last kept.1 ∙ drop_last-snoc s.stack root,
      λ x h. ground (arith, kept.2 x, h, text_eq_iff x root, new),
    ),
    ground (arith, text_eq_refl root),
  )

  pub visit-Visits : (fuel : ℕ) → Visits dependencies fuel (visit dependencies fuel)
  unfolding visit Visits enter Followed
  visit-Visits zero root s inv new w known bound = omega (arith, bound)
  visit-Visits (suc fuel) root s inv new w known bound =
      Judged-bind dependencies
        (λ t. Kept dependencies (enter root s) t × AllFinished dependencies names t)
        (λ t. Kept dependencies s t × (t.state root ≡ some finished))
        (follow (visit dependencies fuel) names (enter root s)) (λ t. ok (leave root t))
        (follow-Judged dependencies fuel (visit dependencies fuel) (visit-Visits fuel) names
          (enter root s) (enter-Inv root s inv new w) (enter-Next root s w)
          (omega (arith, bound, less)))
        (λ t h. leave-Kept root s t inv new h.0 h.1)
    where
      names : List Text
      names = sorted (targets dependencies root)

      less :
          free (s.stack ++ root ∷ []) (all_nodes dependencies)
          < free s.stack (all_nodes dependencies)
      less =
          free-push_lt s.stack root (all_nodes dependencies) (ground (arith, inv.entered root, new))
            known
