-- ===== src/Metadata/Unused.antt =====
-- Which entries of a policy `StaleEntries` reports after calls of `ProjectionOmits` and
-- `ToleratesPlanPath`.
use infrawright_dev.Assessment.Paths.{PlanPath}
use infrawright_dev.Metadata.DriftPolicy.{
  CompiledEntry, DriftPolicy, entries_of, policy_selector_matches, tolerates_plan_path,
}
use infrawright_dev.Metadata.FirstMatch.{AllSafe, mark, tolerates_plan_path-first_match}
use infrawright_dev.Metadata.Tolerance.{first_match}
use infrawright_dev.Metadata.Stale.{
  PolicyMode, projection_omit, plan_tolerate, DeclaredEntry, DeclaredResource, StaleEntry,
  StaleOptions, is_matched, stale_path, type_of, is_selected, modes_of, declared, omit_loop,
  entries_in, tolerated, projection_omits, policy_of, stale_in, stale_modes, stale_types,
  stale_entries,
}
use infrawright_dev.Refedges.SetMaps.{sorted}
use infrawright_dev.Metadata.Listed.{
  iff_trans, or_iff, and_left_iff, and_right_iff, at_each, Any-append_iff, skip_iff, take_iff,
  Any-sorted,
}
use infrawright_dev.Base.{
  ℕ, suc, Bool, true, false, ◌||◌, Option, none, some, List, [], ◌∷◌, map, ◌==◌, if◌then◌else◌, ◌≡◌,
  ◌↔◌, inl, inr, refl, sym, subst, ap, ◌∙◌, arith, Text, text_eq, codes, All, Any, Bool-cases,
}

-- A question to a policy about a path of a resource type.
pub data Question : Type 0 where
  omits : Text → PlanPath → Question
  tolerates : Text → PlanPath → Text → Question

abbrev pub marked_id : Option CompiledEntry → Option ℕ
marked_id none = none
marked_id (some c) = some c.entry.id

abbrev pub add_id : Option ℕ → List ℕ → List ℕ
add_id none matched = matched
add_id (some id) matched = id ∷ matched

module _ (resources : List DeclaredResource) where
  -- The IDs that are matched after the questions.
  abbrev pub ask : List ℕ → Question → List ℕ
  ask matched (omits t path) = (projection_omits resources matched t path).1
  ask matched (tolerates t path action) =
      (tolerates_plan_path (policy_of resources matched) t path action).1.matched

  unfoldable pub ask_all : List ℕ → List Question → List ℕ
  ask_all matched [] = matched
  ask_all matched (q ∷ qs) = ask_all (ask matched q) qs

  -- The ID of the first entry, in the order of declaration, that answers a question.
  abbrev pub answer_id : Question → Option ℕ
  answer_id (omits t path) =
      marked_id (first_match 0 (entries_in (declared resources t projection_omit)) path)
  answer_id (tolerates t path action) =
      if text_eq action (codes "update")
      then marked_id (first_match 0 (entries_in (declared resources t plan_tolerate)) path)
      else none

omit_loop-first_match :
    (matched : List ℕ) (n : ℕ) (ds : List DeclaredEntry) (path : PlanPath)
    → (omit_loop matched ds path).1
      ≡ add_id (marked_id (first_match n (entries_in ds) path)) matched
unfolding omit_loop first_match
omit_loop-first_match matched n [] path = refl
omit_loop-first_match matched n (d ∷ ds) path =
    let later = omit_loop-first_match matched (suc n) ds path in
    elim (Bool-cases (policy_selector_matches d.entry.selector path)) [
      | inl hit ↦ rw (hit, omit_loop, first_match) refl
      | inr miss ↦ rw (miss, omit_loop, first_match) later
    ]

entries_of-tolerated :
    (rs : List DeclaredResource) (t : Text)
    → entries_of (tolerated rs) t ≡ entries_in (declared rs t plan_tolerate)
unfolding entries_of declared
entries_of-tolerated [] t = refl
entries_of-tolerated (r ∷ rs) t = elim (Bool-cases (text_eq r.resource_type t)) [
  | inl same ↦ rw (same, entries_of, declared) refl
  | inr other ↦ rw (other, entries_of, declared) (entries_of-tolerated rs t)
]

matched-mark :
    (policy : DriftPolicy) (found : Option CompiledEntry)
    → (mark policy found).1.matched ≡ add_id (marked_id found) policy.matched
matched-mark policy none = refl
matched-mark policy (some c) = refl

-- The first entry for the question has the ID.
abbrev pub answers : List DeclaredResource → ℕ → Question → Bool
answers resources id q = elim (answer_id resources q) [ none ↦ false | some k ↦ id == k ]

module _ (resources : List DeclaredResource)
    (safe : (t : Text) → AllSafe (entries_in (declared resources t plan_tolerate))) where
  ask-answer_id :
      (matched : List ℕ) (q : Question)
      → ask resources matched q ≡ add_id (answer_id resources q) matched
  unfolding projection_omits
  ask-answer_id matched (omits t path) =
      omit_loop-first_match matched 0 (declared resources t projection_omit) path
  ask-answer_id matched (tolerates t path action) =
      let policy = policy_of resources matched in
      let entries = entries_of-tolerated resources t in
      ap (λ r. r.1.matched)
        (tolerates_plan_path-first_match policy t path action
          (subst AllSafe (sym entries) (safe t)))
      ∙ rw entries (elim (Bool-cases (text_eq action (codes "update"))) [
        | inl update ↦ rw update (
            matched-mark policy
              (first_match 0 (entries_in (declared resources t plan_tolerate)) path))
        | inr other ↦ rw other refl
      ])

  is_matched-ask :
      (id : ℕ) (matched : List ℕ) (q : Question)
      → is_matched id (ask resources matched q) ≡ (answers resources id q || is_matched id matched)
  unfolding is_matched
  is_matched-ask id matched q =
      ap (is_matched id) (ask-answer_id matched q) ∙ by_answer (answer_id resources q)
    where
      by_answer :
          (o : Option ℕ)
          → is_matched id (add_id o matched)
            ≡ (elim o [ none ↦ false | some k ↦ id == k ] || is_matched id matched)
      by_answer none = refl
      by_answer (some k) = refl

  is_matched-ask_all :
      (id : ℕ) (matched : List ℕ) (qs : List Question)
      → (is_matched id (ask_all resources matched qs) ≡ false)
        ↔ ((is_matched id matched ≡ false) × All (λ q. answers resources id q ≡ false) qs)
  unfolding ask_all
  is_matched-ask_all id matched [] = (λ h. (h, tt), λ h. h.0)
  is_matched-ask_all id matched (q ∷ qs) =
      let ih = is_matched-ask_all id (ask resources matched q) qs in
      let one = is_matched-ask id matched q in
      (
        λ h.
            let (now, later) = ih.0 h in
            (ground (arith, now, one), (ground (arith, now, one), later)),
        λ h. ih.1 (ground (arith, h.0, h.1.0, one), h.1.1),
      )

module _ (resources : List DeclaredResource) (matched : List ℕ) (P : StaleEntry → Type 0) where
  -- The report of an entry that is not matched has the property.
  abbrev IsLeft : Text → PolicyMode → DeclaredEntry → Type 0
  IsLeft t m d =
      (is_matched d.entry.id matched ≡ false)
      × P (record { resource_type = t; mode = m; path = stale_path d })

  stale_in_iff :
      (t : Text) (m : PolicyMode) (ds : List DeclaredEntry)
      → Any P (stale_in resources matched t m ds) ↔ Any (IsLeft t m) ds
  unfolding stale_in
  stale_in_iff t m [] = (λ h. h, λ h. h)
  stale_in_iff t m (d ∷ ds) =
      let ih = stale_in_iff t m ds in
      elim (Bool-cases (is_matched d.entry.id matched)) [
        | inl used ↦ rw (used, stale_in) (skip_iff (λ e. ground (arith, e)) ih)
        | inr free ↦ rw (free, stale_in) (take_iff refl (λ h. h, λ h. h) ih)
      ]

  stale_modes_iff :
      (t : Text) (ms : List PolicyMode)
      → Any P (stale_modes resources matched t ms)
        ↔ Any (λ m. Any (IsLeft t m) (declared resources t m)) ms
  unfolding stale_modes
  stale_modes_iff t [] = (λ h. h, λ h. h)
  stale_modes_iff t (m ∷ ms) =
      let here = declared resources t m in
      iff_trans
        (Any-append_iff P (stale_in resources matched t m here)
          (stale_modes resources matched t ms))
        (or_iff (stale_in_iff t m here) (stale_modes_iff t ms))

  module _ (options : StaleOptions) (ms : List PolicyMode) where
    stale_types_iff :
        (ts : List Text)
        → Any P (stale_types resources matched options ms ts)
          ↔ Any
              (λ t.
                (is_selected options t ≡ true)
                × Any (λ m. Any (IsLeft t m) (declared resources t m)) ms)
              ts
    unfolding stale_types
    stale_types_iff [] = (λ h. h, λ h. h)
    stale_types_iff (t ∷ ts) =
        let ih = stale_types_iff ts in
        elim (Bool-cases (is_selected options t)) [
          | inl chosen ↦
              rw (chosen, stale_types)
                (iff_trans
                  (Any-append_iff P (stale_modes resources matched t ms)
                    (stale_types resources matched options ms ts))
                  (take_iff refl (stale_modes_iff t ms) ih))
          | inr other ↦ rw (other, stale_types) (skip_iff (λ e. ground (arith, e)) ih)
        ]

-- An entry that was not matched and answers no question, with the report of it.
abbrev pub IsUnused :
    List DeclaredResource
    → List ℕ
    → List Question
    → StaleEntry
    → Text
    → PolicyMode
    → DeclaredEntry
    → Type 0
IsUnused resources matched qs s t m d =
    ((is_matched d.entry.id matched ≡ false) × All (λ q. answers resources d.entry.id q ≡ false) qs)
    × (record { resource_type = t; mode = m; path = stale_path d } ≡ s)

-- After any ProjectionOmits and ToleratesPlanPath calls, StaleEntries reports exactly the entries of the
-- selected resource types and modes that were not matched before and are not the first, in the order of
-- declaration, that matches the path of one of the calls. An empty selection stands for all. It is
-- assumed that the indexes in the selectors of plan_tolerate entries are safe.
pub stale_entries-IsUnused_iff :
    (resources : List DeclaredResource)
    → ((t : Text) → AllSafe (entries_in (declared resources t plan_tolerate)))
    → (matched : List ℕ) (qs : List Question) (options : StaleOptions) (s : StaleEntry)
    → Any (λ e. e ≡ s) (stale_entries resources (ask_all resources matched qs) options)
      ↔ Any
          (λ t.
            (is_selected options t ≡ true)
            × Any
                (λ m. Any (IsUnused resources matched qs s t m) (declared resources t m))
                (modes_of options.modes))
          (map type_of resources)
unfolding stale_entries
stale_entries-IsUnused_iff resources safe matched qs options s =
    let after = ask_all resources matched qs in
    let modes = modes_of options.modes in
    let types = map type_of resources in
    iff_trans (stale_types_iff resources after (λ e. e ≡ s) options modes (sorted types)) (
      iff_trans (Any-sorted _ types) (
        at_each types (λ t. and_right_iff (
          at_each modes (λ m.
            at_each (declared resources t m)
              (λ d. and_left_iff (is_matched-ask_all resources safe d.entry.id matched qs)))))))
