-- ===== src/Refedges/Resolved.antt =====
-- What `Resolve` returns.
use infrawright_dev.Refedges.Acyclic.{cycle_path-Judged}
use infrawright_dev.Refedges.Covered.{HasEdge, referrers-HasEdge}
use infrawright_dev.Refedges.Cycles.{Search, Stop, cycle_path}
use infrawright_dev.Refedges.Declared.{IsDeclaredEdge, IsQualified-IsDeclaredEdge_iff}
use infrawright_dev.Refedges.Qualified.{IsQualified, Extends, Holds, resolve_referrers-Extends}
use infrawright_dev.Refedges.Recorded.{
  Leads, Serves, IsOutput, IsRecorded, Extends-IsQualified, Extends-IsRecorded, Extends-Leads,
  Extends-Serves, edge_lt_asymm,
}
use infrawright_dev.Refedges.Resolve.{
  Options, Edge, Topology, ResolveError, cycle, merged_references, resolve_referrers, referrers,
  no_edges, edge_lt, sort_edges, finish, resolve,
}
use infrawright_dev.Refedges.Visited.{Judged}
use infrawright_dev.Refedges.Walks.{DependsOn, Reaches}
use infrawright_dev.Base.Sorting.{IsSorted, stable_sort-IsSorted, All-stable_sort, Any-stable_sort}
use infrawright_dev.Base.{
  List, [], ◌∷◌, ◌≡◌, ◌↔◌, refl, sym, ◌∙◌, subst, Text, All, Any, Result, ok, err, bind-eq-ok,
  Result-cases, ok-injective, inl, inr,
}

pub record IsResolved (options : Options) (t : Topology) : Type 0 where
  pub edges : (e : Edge) → HasEdge e t ↔ IsDeclaredEdge options e
  pub in_order : IsSorted edge_lt t.edges
  pub dependencies : (a b : Text) → DependsOn t.dependencies_by_root a b ↔ Leads a b t.edges
  pub outputs : (a r : Text) → IsOutput t.outputs_by_root a r ↔ Serves a r t.edges
  pub acyclic : (a : Text) → ¬ Reaches t.dependencies_by_root a a

pub All-Any :
    {P : Edge → Type 0} (Q : Edge → Type 0) {G : Type 0}
    → ((e : Edge) → P e → Q e → G)
    → (es : List Edge) → All P es
    → Any Q es
    → G
All-Any Q f [] h k = absurd k
All-Any Q f (e ∷ es) h (inl k) = f e h.0 k
All-Any Q f (e ∷ es) h (inr k) = All-Any Q f es h.1 k

module _ (options : Options) where
  sorted-IsResolved :
      (t : Topology)
      → Extends options (merged_references options) no_edges t
      → ((e : Edge) → IsQualified options (merged_references options) e → HasEdge e t)
      → ((a : Text) → ¬ Reaches t.dependencies_by_root a a)
      → IsResolved options (record t { edges = sort_edges t.edges })
  unfolding sort_edges
  sorted-IsResolved t x all_edges no_cycle = record {
    edges = λ e.
        let declared = IsQualified-IsDeclaredEdge_iff options e in
        (
          λ h. declared.0 (
              All-Any (λ y. y ≡ e)
                (λ y q same. subst (IsQualified options (merged_references options)) same q)
                (sort_edges t.edges)
                (All-stable_sort edge_lt (IsQualified options (merged_references options)) t.edges
                  (Extends-IsQualified options (merged_references options) x))
                h),
          λ d. Any-stable_sort edge_lt (λ y. y ≡ e) t.edges (all_edges e (declared.1 d)),
        );
    in_order = stable_sort-IsSorted edge_lt edge_lt_asymm t.edges;
    dependencies = λ a b. (
      (λ h.
          Any-stable_sort edge_lt (λ y. (y.referrer_root ≡ a) × (y.referent_root ≡ b)) t.edges
            (Extends-Leads options (merged_references options) a b x h)),
      All-Any (λ y. (y.referrer_root ≡ a) × (y.referent_root ≡ b))
          (λ y r same. rw (sym same.0, sym same.1) r.0) (sort_edges t.edges) recorded,
    );
    outputs = λ a r. (
      (λ h.
          Any-stable_sort edge_lt (λ y. (y.referent_root ≡ a) × (y.referent ≡ r)) t.edges
            (Extends-Serves options (merged_references options) a r x h)),
      All-Any (λ y. (y.referent_root ≡ a) × (y.referent ≡ r))
          (λ y k same. rw (sym same.0, sym same.1) k.1) (sort_edges t.edges) recorded,
    );
    acyclic = no_cycle;
  }
    where
      recorded : All (IsRecorded t) (sort_edges t.edges)
      recorded =
          All-stable_sort edge_lt (IsRecorded t) t.edges
            (Extends-IsRecorded options (merged_references options) x)

  -- The walk has found no cycle, and so there is none.
  no_cycle_found :
      (t : Topology) (s : Search)
      → cycle_path t.dependencies_by_root ≡ ok s
      → (a : Text) → ¬ Reaches t.dependencies_by_root a a
  no_cycle_found t s h =
      subst (Judged t.dependencies_by_root (λ _. (a : Text) → ¬ Reaches t.dependencies_by_root a a))
        h (cycle_path-Judged t.dependencies_by_root)

  pub finish-ok :
      (t : Topology) (s : Search)
      → cycle_path t.dependencies_by_root ≡ ok s
      → finish t ≡ ok (record t { edges = sort_edges t.edges })
  unfolding finish
  finish-ok t s e = rw (e, finish) refl

  pub finish-err :
      (t : Topology) (stop : Stop)
      → cycle_path t.dependencies_by_root ≡ err stop
      → finish t ≡ err (cycle stop)
  unfolding finish
  finish-err t stop e = rw (e, finish) refl

  unfoldable pub walk : Result ResolveError Topology
  walk =
      resolve_referrers options (merged_references options) (referrers (merged_references options))
        no_edges

  pub walk-Extends :
      (t : Topology) → walk ≡ ok t → Extends options (merged_references options) no_edges t
  unfolding walk
  walk-Extends t h =
      subst
        (Holds options (merged_references options)
          (Extends options (merged_references options) no_edges))
        h
        (resolve_referrers-Extends options (merged_references options)
          (referrers (merged_references options)) no_edges)

  walk-HasEdge :
      (t : Topology)
      → walk ≡ ok t
      → (e : Edge) → IsQualified options (merged_references options) e
      → HasEdge e t
  unfolding walk
  walk-HasEdge t h e q =
      subst (Holds options (merged_references options) (HasEdge e)) h
        (referrers-HasEdge options (merged_references options) e no_edges q)

  finish-IsResolved : (t u : Topology) → walk ≡ ok t → finish t ≡ ok u → IsResolved options u
  finish-IsResolved t u h k = elim (Result-cases (cycle_path t.dependencies_by_root)) [
    | inl (s, e) ↦
        let same : ok (record t { edges = sort_edges t.edges }) ≡ ok u =
          sym (finish-ok t s e) ∙ k in
        subst (IsResolved options) (ok-injective same)
          (sorted-IsResolved t (walk-Extends t h) (walk-HasEdge t h) (no_cycle_found t s e))
    | inr (stop, e) ↦ let clash = sym (finish-err t stop e) ∙ k in cc
  ]

-- The topology that Resolve returns has an edge exactly for a reference from a generated resource of a
-- provider with cross-state references to a known resource of another root, as the last active manifest
-- with a declaration at its field declares it. The edges are in order, the dependencies and outputs are
-- those of the edges, and no root depends on itself, directly or not.
pub resolve-IsResolved :
    (options : Options) (t : Topology) → resolve options ≡ ok t → IsResolved options t
unfolding resolve walk
resolve-IsResolved options t h =
    let (u, walked, finished) = bind-eq-ok (walk options) finish h in
    finish-IsResolved options u t walked finished
