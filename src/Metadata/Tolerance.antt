-- ===== src/Metadata/Tolerance.antt =====
-- What one round of the loop that indexes a drift policy adds to the search for an entry.
use infrawright_dev.Base.{
  ℕ, suc, true, false, ◌&&◌, List, [], ◌∷◌, ◌++◌, if◌then◌else◌, Option, none, some, ◌≡◌, refl, sym,
  ap, ◌∙◌, arith, Bool-cases, inl, inr, All, All-append,
}
use infrawright_dev.Assessment.Paths.{PlanPath}
use infrawright_dev.Metadata.DriftPolicy.{
  has_wildcard, policy_selector_matches, PolicyEntry, CompiledEntry, Indexes, find_exact, exists,
  at_order, index_entry, exact_match, is_before, best_match, matching_entry,
}
use infrawright_dev.Metadata.Exact.{
  is_safe, or_else, if_matches, IsBelow, IsExact, exact_match-append, exact_match-repeated,
  IsBelowOption, exact_match-IsBelowOption,
}

-- The first entry whose selector matches, with its order.
unfoldable pub first_match : ℕ → List PolicyEntry → PlanPath → Option CompiledEntry
first_match order [] path = none
first_match order (e ∷ es) path =
    let later = first_match (suc order) es path in
    if policy_selector_matches e.selector path then some (at_order e order) else later

best_match-exists :
    (c : CompiledEntry) (cs : List CompiledEntry) (path : PlanPath)
    → exists (best_match (some c) cs path) ≡ true
unfolding best_match
best_match-exists c [] path = refl
best_match-exists c (d ∷ cs) path =
    ground (arith, best_match-exists c cs path, best_match-exists d cs path)

best_match-append :
    (cs : List CompiledEntry) (c : CompiledEntry) (path : PlanPath) (found : Option CompiledEntry)
    → best_match found (cs ++ c ∷ []) path ≡ (
        let m = best_match found cs path in
        if policy_selector_matches c.entry.selector path && is_before c m then some c else m)
unfolding best_match
best_match-append [] c path found = refl
best_match-append (d ∷ cs) c path found = best_match-append cs c path _

-- An exact entry behind all wildcard entries gives way to any that matches.
best_match-last :
    (c : CompiledEntry) (cs : List CompiledEntry) (path : PlanPath)
    → All (IsBelow c.order) cs
    → best_match (some c) cs path ≡ or_else (best_match none cs path) (some c)
unfolding best_match
best_match-last c [] path h = refl
best_match-last c (d ∷ cs) path h =
    ground (arith, h.0, best_match-last c cs path h.1, best_match-exists d cs path)

pub record IsIndexed (n : ℕ) (ix : Indexes) : Type 0 where
  pub exact : All (IsExact n) ix.exact
  pub wildcard : All (IsBelow n) ix.wildcard

pub or_else-exists : (m other : Option CompiledEntry) → exists m ≡ true → or_else m other ≡ m
or_else-exists none other h = cc
or_else-exists (some c) other h = refl

pub or_else-none : (m : Option CompiledEntry) → or_else m none ≡ m
or_else-none none = refl
or_else-none (some c) = refl

exists-best_match :
    (found : Option CompiledEntry) (cs : List CompiledEntry) (path : PlanPath)
    → exists found ≡ true
    → exists (best_match found cs path) ≡ true
exists-best_match none cs path h = cc
exists-best_match (some c) cs path h = best_match-exists c cs path

module _ (path : PlanPath) where
  best_match-IsBelowOption :
      (n : ℕ) (cs : List CompiledEntry) (found : Option CompiledEntry)
      → All (IsBelow n) cs
      → IsBelowOption n found
      → IsBelowOption n (best_match found cs path)
  unfolding best_match
  best_match-IsBelowOption n [] found all h = h
  best_match-IsBelowOption n (c ∷ cs) found all h =
      elim (Bool-cases (policy_selector_matches c.entry.selector path && is_before c found)) [
        | inl better ↦ rw better (best_match-IsBelowOption n cs (some c) all.1 all.0)
        | inr worse ↦ rw worse (best_match-IsBelowOption n cs found all.1 h)
      ]

  -- An entry behind all others is taken only where there is none.
  taken_last :
      (c : CompiledEntry) (m : Option CompiledEntry)
      → IsBelowOption c.order m
      → (if policy_selector_matches c.entry.selector path && is_before c m then some c else m)
        ≡ or_else m (if_matches c path)
  taken_last c none h = ground arith
  taken_last c (some d) h = ground (arith, h)

  pub wildcard_step :
      (c : CompiledEntry) (ix : Indexes)
      → IsIndexed c.order ix
      → matching_entry (record ix { wildcard = ix.wildcard ++ c ∷ [] }) path
        ≡ or_else (matching_entry ix path) (if_matches c path)
  unfolding matching_entry
  wildcard_step c ix inv =
      best_match-append ix.wildcard c path (exact_match ix.exact path)
      ∙ taken_last c (best_match (exact_match ix.exact path) ix.wildcard path) (
          best_match-IsBelowOption c.order ix.wildcard (exact_match ix.exact path) inv.wildcard
            (exact_match-IsBelowOption c.order ix.exact path inv.exact))

  fresh_step :
      (c : CompiledEntry) (found : Option CompiledEntry) (cs : List CompiledEntry)
      → All (IsBelow c.order) cs
      → best_match (or_else found (if_matches c path)) cs path
        ≡ or_else (best_match found cs path) (if_matches c path)
  fresh_step c (some d) cs all = sym (
      or_else-exists (best_match (some d) cs path) (if_matches c path)
        (best_match-exists d cs path))
  fresh_step c none cs all = elim (Bool-cases (policy_selector_matches c.entry.selector path)) [
    | inl matches ↦ rw matches (best_match-last c cs path all)
    | inr differs ↦ rw differs (sym (or_else-none (best_match none cs path)))
  ]

  pub repeated_step :
      (n : ℕ) (ix : Indexes) (e : PolicyEntry)
      → IsIndexed n ix
      → is_safe e.selector ≡ true
      → has_wildcard e.selector ≡ false
      → exists (find_exact ix.exact e.selector) ≡ true
      → matching_entry ix path ≡ or_else (matching_entry ix path) (if_matches (at_order e n) path)
  unfolding matching_entry
  repeated_step n ix e inv safe plain repeated =
      elim (Bool-cases (policy_selector_matches e.selector path)) [
        | inl matches ↦ sym (
            or_else-exists _ _ (
              exists-best_match (exact_match ix.exact path) ix.wildcard path
                (exact_match-repeated n ix.exact e path inv.exact plain safe repeated matches)))
        | inr differs ↦ rw differs (sym (or_else-none (matching_entry ix path)))
      ]

  IsExact-at_order :
      (n : ℕ) (e : PolicyEntry)
      → is_safe e.selector ≡ true
      → has_wildcard e.selector ≡ false
      → IsExact (suc n) (at_order e n)
  IsExact-at_order n e safe plain = record { below = omega arith; plain = plain; safe = safe }

  IsExact-suc : (n : ℕ) (cs : List CompiledEntry) → All (IsExact n) cs → All (IsExact (suc n)) cs
  IsExact-suc n [] h = tt
  IsExact-suc n (c ∷ cs) h = (
    record { below = omega (arith, h.0.below); plain = h.0.plain; safe = h.0.safe },
    IsExact-suc n cs h.1,
  )

  IsBelow-suc : (n : ℕ) (cs : List CompiledEntry) → All (IsBelow n) cs → All (IsBelow (suc n)) cs
  IsBelow-suc n [] h = tt
  IsBelow-suc n (c ∷ cs) h = (omega (arith, h.0), IsBelow-suc n cs h.1)

  pub index_entry-IsIndexed :
      (n : ℕ) (ix : Indexes) (e : PolicyEntry)
      → IsIndexed n ix
      → is_safe e.selector ≡ true
      → IsIndexed (suc n) (index_entry n ix e)
  unfolding index_entry
  index_entry-IsIndexed n ix e inv safe =
      let exact = IsExact-suc n ix.exact inv.exact in
      let wildcard = IsBelow-suc n ix.wildcard inv.wildcard in
      elim (Bool-cases (has_wildcard e.selector)) [
        | inl wild ↦
            rw (wild, index_entry)
              (record {
                exact = exact;
                wildcard =
                    All-append (IsBelow (suc n)) ix.wildcard (at_order e n ∷ []) wildcard
                      (omega arith, tt);
              })
        | inr plain ↦ elim (Bool-cases (exists (find_exact ix.exact e.selector))) [
          | inl repeated ↦
              rw (plain, repeated, index_entry) (record { exact = exact; wildcard = wildcard })
          | inr fresh ↦
              rw (plain, fresh, index_entry)
                (record {
                  exact =
                      All-append (IsExact (suc n)) ix.exact (at_order e n ∷ []) exact
                        (IsExact-at_order n e safe plain, tt);
                  wildcard = wildcard;
                })
        ]
      ]

  pub exact_step :
      (n : ℕ) (ix : Indexes) (e : PolicyEntry)
      → IsIndexed n ix
      → is_safe e.selector ≡ true
      → has_wildcard e.selector ≡ false
      → matching_entry (record ix { exact = ix.exact ++ at_order e n ∷ [] }) path
        ≡ or_else (matching_entry ix path) (if_matches (at_order e n) path)
  unfolding matching_entry
  exact_step n ix e inv safe plain =
      let last = IsExact-at_order n e safe plain in
      let before = IsExact-suc n ix.exact inv.exact in
      ap (λ found. best_match found ix.wildcard path)
        (exact_match-append (suc n) ix.exact (at_order e n) path
          (All-append (IsExact (suc n)) ix.exact (at_order e n ∷ []) before (last, tt)) before last)
      ∙ fresh_step (at_order e n) (exact_match ix.exact path) ix.wildcard inv.wildcard
