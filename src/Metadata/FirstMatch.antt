-- ===== src/Metadata/FirstMatch.antt =====
-- go/internal/metadata/driftpolicy.go: `ToleratesPlanPath` and a search in declaration order.
use infrawright_dev.Base.{
  ℕ, suc, Bool, true, false, List, [], ◌∷◌, if◌then◌else◌, Text, codes, text_eq, Option, none, some,
  ◌≡◌, sym, arith, Bool-cases, Option-cases, inl, inr, All,
}
use infrawright_dev.Assessment.Paths.{PlanPath}
use infrawright_dev.Metadata.DriftPolicy.{
  has_wildcard, PolicyEntry, CompiledEntry, Indexes, find_exact, exists, at_order, index_entry,
  index_entries, no_indexes, DriftPolicy, entries_of, indexes_of, exact_match, best_match,
  matching_entry, tolerates_plan_path,
}
use infrawright_dev.Metadata.Exact.{is_safe, or_else, if_matches, exact_match-IsBelowOption}
use infrawright_dev.Metadata.Tolerance.{
  first_match, IsIndexed, wildcard_step, exact_step, or_else-none, repeated_step,
  index_entry-IsIndexed,
}

-- Every selector has safe indexes only.
abbrev pub AllSafe : List PolicyEntry → Type 0
AllSafe = All (λ e. is_safe e.selector ≡ true)

module _ (path : PlanPath) where
  matching_entry-index_entry :
      (n : ℕ) (ix : Indexes) (e : PolicyEntry)
      → IsIndexed n ix
      → is_safe e.selector ≡ true
      → matching_entry (index_entry n ix e) path
        ≡ or_else (matching_entry ix path) (if_matches (at_order e n) path)
  unfolding index_entry
  matching_entry-index_entry n ix e inv safe = elim (Bool-cases (has_wildcard e.selector)) [
    | inl wild ↦ rw (wild, index_entry) (wildcard_step path (at_order e n) ix inv)
    | inr plain ↦ elim (Bool-cases (exists (find_exact ix.exact e.selector))) [
      | inl repeated ↦
          rw (plain, repeated, index_entry) (repeated_step path n ix e inv safe plain repeated)
      | inr fresh ↦ rw (plain, fresh, index_entry) (exact_step path n ix e inv safe plain)
    ]
  ]

  matching_entry-index_entries :
      (es : List PolicyEntry) (n : ℕ) (ix : Indexes)
      → IsIndexed n ix
      → AllSafe es
      → matching_entry (index_entries n ix es) path
        ≡ or_else (matching_entry ix path) (first_match n es path)
  unfolding index_entries first_match
  matching_entry-index_entries [] n ix inv safe = sym (or_else-none (matching_entry ix path))
  matching_entry-index_entries (e ∷ es) n ix inv safe = ground (
    arith,
    matching_entry-index_entries es (suc n) (index_entry n ix e)
        (index_entry-IsIndexed path n ix e inv safe.0) safe.1,
    matching_entry-index_entry n ix e inv safe.0,
  )

  matching_entry-none : matching_entry no_indexes path ≡ none
  unfolding matching_entry best_match
  matching_entry-none = elim (Option-cases (exact_match [] path)) [
    | inl e ↦ e
    | inr (c, e) ↦ absurd (elim (rw e at (exact_match-IsBelowOption 0 [] path tt)) [ ])
  ]

-- What a policy does with the entry that it finds.
abbrev pub mark : DriftPolicy → Option CompiledEntry → Bool × DriftPolicy
mark policy none = (false, policy)
mark policy (some c) = (true, record policy { matched = c.entry.id ∷ policy.matched })

-- `ToleratesPlanPath` answers and marks as a search in the order of declaration does: an update of a
-- path is tolerated exactly when the selector of an entry of the resource type matches the path, and
-- the first such entry is marked; another action is not, and marks nothing. It is assumed that the
-- indexes in the selectors are safe.
pub tolerates_plan_path-first_match :
    (policy : DriftPolicy) (resource_type : Text) (path : PlanPath) (action : Text)
    → AllSafe (entries_of policy.sources resource_type)
    → tolerates_plan_path policy resource_type path action ≡ (
        if text_eq action (codes "update")
        then mark policy (first_match 0 (entries_of policy.sources resource_type) path)
        else (false, policy))
unfolding tolerates_plan_path indexes_of
tolerates_plan_path-first_match policy resource_type path action safe =
    let es = entries_of policy.sources resource_type in
    let finds =
      matching_entry-index_entries path es 0 no_indexes (record { exact = tt; wildcard = tt })
        safe in
    ground (arith, finds, matching_entry-none path)
