-- ===== src/Refedges/Acyclic.antt =====
-- go/internal/refedges/refedges.go: what `cyclePath` answers.
use infrawright_dev.Refedges.SetMaps.{SetMap, node_set, node_set-source, member-sorted}
use infrawright_dev.Refedges.Cycles.{
  visiting, finished, Search, visit, visit_roots, nodes, cycle_path,
}
use infrawright_dev.Refedges.Walks.{IsWalk, Reaches, Reaches-irrefl, Reaches-source}
use infrawright_dev.Refedges.Visited.{
  free_le, Inv, Grows, Kept, Judged, Judged-bind, Judged-map, all_nodes, Visits, AllFinished,
  AllFinished-cons,
}
use infrawright_dev.Refedges.Depth.{visit-Visits}
use infrawright_dev.Base.{
  ℕ, suc, true, false, none, some, List, [], ◌∷◌, ◌++◌, ◌≡◌, refl, sym, ap, subst, ◌∙◌, arith,
  length, Text, text_eq_refl, member, Option-cases, inl, inr,
}

module _ (dependencies : SetMap) where
  -- How the loop over all names ends.
  Searched : List Text → Search → Search → Type 0
  Searched roots s t =
      Inv dependencies t × Grows dependencies s t × AllFinished dependencies roots t

  Searched-cons :
      (root : Text) (rest : List Text) (s t u : Search)
      → Grows dependencies s t
      → t.state root ≡ some finished
      → Searched rest t u
      → Searched (root ∷ rest) s u
  unfolding Searched Grows
  Searched-cons root rest s t u grows done_root h = (
    h.0,
    λ x k. h.1 x (grows x k),
    AllFinished-cons dependencies root rest u (h.1 root done_root) h.2,
  )

  AreNodes : List Text → Type 0
  AreNodes names = (d : Text) → member d names ≡ true → member d (all_nodes dependencies) ≡ true

  AreNodes-cons :
      (root : Text) (rest : List Text)
      → AreNodes (root ∷ rest)
      → (member root (all_nodes dependencies) ≡ true) × AreNodes rest
  unfolding AreNodes member
  AreNodes-cons root rest known =
      (known root (ground (arith, text_eq_refl root)), λ d m. known d (ground (arith, m)))

  fuel : ℕ
  fuel = suc (length (all_nodes dependencies))

  visit-first :
      (root : Text) (s : Search)
      → Inv dependencies s
      → s.stack ≡ []
      → s.state root ≡ none
      → member root (all_nodes dependencies) ≡ true
      → Judged dependencies
          (λ t. Kept dependencies s t × (t.state root ≡ some finished))
          (visit dependencies fuel root s)
  unfolding Visits fuel
  visit-first root s inv empty new known =
      visit-Visits dependencies fuel root s inv new
        (subst (λ st. IsWalk dependencies (st ++ root ∷ [])) (sym empty) tt) known
        (free_le s.stack (all_nodes dependencies))

  not-member-empty : (root : Text) (stack : List Text) → stack ≡ [] → ¬ (member root stack ≡ true)
  unfolding member
  not-member-empty root stack empty m = absurd (the_case (sym m ∙ ap (member root) empty))
    where
      the_case : ¬ (true ≡ false)
      the_case h = cc

  visit_roots-Judged :
      (roots : List Text) (s : Search)
      → Inv dependencies s
      → s.stack ≡ []
      → AreNodes roots
      → Judged dependencies (Searched roots s) (visit_roots dependencies fuel roots s)
  unfolding visit_roots AllFinished Grows member Searched Kept
  visit_roots-Judged [] s inv empty known = (inv, (λ x h. h), λ d h. cc)
  visit_roots-Judged (root ∷ rest) s inv empty known =
      let here = AreNodes-cons root rest known in
      elim (Option-cases (s.state root)) [
        | inl new ↦
            rw (new, visit_roots)
              (Judged-bind dependencies
                (λ t. Kept dependencies s t × (t.state root ≡ some finished))
                (Searched (root ∷ rest) s) (visit dependencies fuel root s)
                (visit_roots dependencies fuel rest) (visit-first root s inv empty new here.0)
                (λ t h.
                  Judged-map dependencies (Searched rest t) (Searched (root ∷ rest) s)
                    (visit_roots dependencies fuel rest t)
                    (λ u k. Searched-cons root rest s t u h.0.2 h.1 k)
                    (visit_roots-Judged rest t h.0.0 (h.0.1 ∙ empty) here.1)))
        | inr (finished, e) ↦
            rw (e, visit_roots)
              (Judged-map dependencies (Searched rest s) (Searched (root ∷ rest) s)
                (visit_roots dependencies fuel rest s)
                (λ u k. Searched-cons root rest s s u (λ x h. h) e k)
                (visit_roots-Judged rest s inv empty here.1))
        | inr (visiting, e) ↦ absurd (not-member-empty root s.stack empty ((inv.entered root).0 e))
      ]

  initial : Search
  initial = record { state = λ _. none; stack = [] }

  initial-Inv : Inv dependencies initial
  unfolding initial member
  initial-Inv = record {
    order = [];
    ordered = tt;
    done = λ x. ground arith;
    entered = λ x. ground arith;
    walk = tt;
  }

  Searched-acyclic :
      (s t : Search)
      → Searched (nodes dependencies) s t
      → (name : Text) → ¬ Reaches dependencies name name
  unfolding Searched AllFinished nodes
  Searched-acyclic s t h name w =
      Reaches-irrefl dependencies h.0.order h.0.ordered name ((h.0.done name).0 (h.2 name listed)) w
    where
      listed : member name (nodes dependencies) ≡ true
      listed =
          let (d, k) = Reaches-source dependencies w in
          member-sorted name (node_set dependencies []) ∙ node_set-source dependencies [] name d k

  -- The search for a cycle ends. What it returns is a cycle, and if it returns none, then no name
  -- reaches itself.
  pub cycle_path-Judged :
      Judged dependencies
        (λ _. (name : Text) → ¬ Reaches dependencies name name)
        (cycle_path dependencies)
  unfolding cycle_path initial all_nodes fuel AreNodes
  cycle_path-Judged =
      Judged-map dependencies (Searched (nodes dependencies) initial)
        (λ _. (name : Text) → ¬ Reaches dependencies name name) (cycle_path dependencies)
        (λ t h. Searched-acyclic initial t h)
        (visit_roots-Judged (nodes dependencies) initial initial-Inv refl (λ d m. m))
