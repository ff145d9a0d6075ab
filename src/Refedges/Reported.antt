-- ===== src/Refedges/Reported.antt =====
-- The cycle that `Resolve` reports.
use infrawright_dev.Refedges.Acyclic.{cycle_path-Judged}
use infrawright_dev.Refedges.Cycles.{Stop, found, out_of_range, out_of_fuel, cycle_path}
use infrawright_dev.Refedges.Qualified.{IsQualified, Extends, Holds, resolve_referrers-Extends}
use infrawright_dev.Refedges.Recorded.{Extends-IsQualified, Extends-Leads}
use infrawright_dev.Refedges.Resolve.{
  Options, Edge, Topology, ResolveError, cycle, merged_references, referrers, no_edges, finish,
  resolve,
}
use infrawright_dev.Refedges.Visited.{Judged}
use infrawright_dev.Refedges.Walks.{Reaches, IsWalk}
use infrawright_dev.Refedges.Resolved.{All-Any, walk, walk-Extends, finish-ok, finish-err}
use infrawright_dev.Base.{
  List, [], ◌∷◌, ◌++◌, ◌≡◌, refl, sym, ap, ◌∙◌, subst, Text, Result, err, bind-eq-err, Result-cases,
  inl, inr,
}

-- A reference that is declared leads from a root to another.
unfoldable pub IsLink : Options → Text → Text → Type 0
IsLink options a b =
    (e : Edge) × IsQualified options (merged_references options) e
    × (e.referrer_root ≡ a)
    × (e.referent_root ≡ b)

abbrev pub IsChain : Options → List Text → Type 0
IsChain options [] = Unit
IsChain options (a ∷ []) = Unit
IsChain options (a ∷ b ∷ rest) = IsLink options a b × IsChain options (b ∷ rest)

IsWalk-IsChain :
    (options : Options) (t : Topology)
    → Extends options (merged_references options) no_edges t
    → (names : List Text) → IsWalk t.dependencies_by_root names
    → IsChain options names
unfolding IsLink
IsWalk-IsChain options t x [] w = tt
IsWalk-IsChain options t x (a ∷ []) w = tt
IsWalk-IsChain options t x (a ∷ b ∷ rest) w = (
  All-Any (λ y. (y.referrer_root ≡ a) × (y.referent_root ≡ b)) (λ e q ends. (e, q, ends.0, ends.1))
      t.edges (Extends-IsQualified options (merged_references options) x)
      (Extends-Leads options (merged_references options) a b x w.0),
  IsWalk-IsChain options t x (b ∷ rest) w.1,
)

-- The list of roots ends where it begins, and references lead from each to the next.
unfoldable pub IsRootCycle : Options → List Text → Type 0
IsRootCycle options names =
    (root : Text) × (between : List Text) × (names ≡ root ∷ between ++ root ∷ [])
    × IsChain options names

Judged-cycle :
    (options : Options) (t : Topology)
    → Extends options (merged_references options) no_edges t
    → (stop : Stop)
    → Judged t.dependencies_by_root
        (λ _. (a : Text) → ¬ Reaches t.dependencies_by_root a a)
        (err stop)
    → (names : List Text) × (stop ≡ found names) × IsRootCycle options names
unfolding IsRootCycle
Judged-cycle options t x (found names) (root, between, closed, w) =
    (names, refl, (root, between, closed, IsWalk-IsChain options t x names w))
Judged-cycle options t x out_of_range j = absurd j
Judged-cycle options t x out_of_fuel j = absurd j

finish-cycle :
    (options : Options) (t : Topology) (stop : Stop)
    → Extends options (merged_references options) no_edges t
    → finish t ≡ err (cycle stop)
    → (names : List Text) × (stop ≡ found names) × IsRootCycle options names
finish-cycle options t stop x h = elim (Result-cases (cycle_path t.dependencies_by_root)) [
  | inl (s, e) ↦ let clash = sym (finish-ok options t s e) ∙ h in cc
  | inr (other, e) ↦
      let alike : other ≡ stop = cycle-injective (sym (finish-err options t other e) ∙ h) in
      Judged-cycle options t x stop (
        subst
          (Judged t.dependencies_by_root (λ _. (a : Text) → ¬ Reaches t.dependencies_by_root a a))
          (e ∙ ap err alike) (cycle_path-Judged t.dependencies_by_root))
]
  where
    cycle-injective :
        {a b : Stop}
        → ◌≡◌ {A = Result ResolveError Topology} (err (cycle a)) (err (cycle b))
        → a ≡ b
    cycle-injective k = cc

-- When Resolve reports a cycle, it is one: the list of roots that it names ends where it begins, and
-- from each root to the next a reference that is declared leads.
pub resolve-cycle :
    (options : Options) (stop : Stop)
    → resolve options ≡ err (cycle stop)
    → (names : List Text) × (stop ≡ found names) × IsRootCycle options names
unfolding resolve walk
resolve-cycle options stop h = elim (bind-eq-err (walk options) finish h) [
  | inl (t, walked, failed) ↦ finish-cycle options t stop (walk-Extends options t walked) failed
  | inr failed ↦ absurd (
      subst
        (Holds options (merged_references options)
          (Extends options (merged_references options) no_edges))
        failed
        (resolve_referrers-Extends options (merged_references options)
          (referrers (merged_references options)) no_edges))
]
