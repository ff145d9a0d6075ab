-- ===== src/Metadata/Exact.antt =====
-- The map of the exact entries of a drift policy: which entry it finds for a path.
use infrawright_dev.Base.{
  ℕ, ◌<◌, Bool, true, false, ◌&&◌, List, [], ◌∷◌, ◌++◌, leb, if◌then◌else◌, text_eq_iff,
  text_eq_comm, ==_iff, Option, none, some, ◌≡◌, ◌↔◌, refl, ap, subst, ◌∙◌, arith, Bool-cases,
  Option-cases, inl, inr, All,
}
use infrawright_dev.Assessment.Paths.{key, index, PlanPath}
use infrawright_dev.Metadata.DriftPolicy.{
  max_safe_integer, PolicySegment, name, position, big, Selector, policy_segment_eq, selector_eq,
  has_wildcard, segment_matches, policy_selector_matches, PolicyEntry, CompiledEntry, find_exact,
  exists, concrete_path, keep_if_matches, exact_match,
}

-- Each index of the selector is safe, as `ParsePolicyPath` leaves it.
unfoldable pub is_safe : Selector → Bool
is_safe [] = true
is_safe (position n ∷ ss) = leb n max_safe_integer && is_safe ss
is_safe (_ ∷ ss) = is_safe ss

policy_segment_eq_iff : (r s : PolicySegment) → (policy_segment_eq r s ≡ true) ↔ (r ≡ s)
unfolding policy_segment_eq
policy_segment_eq_iff (name a) (name b) = ground (arith, text_eq_iff a b)
policy_segment_eq_iff (position a) (position b) = ground (arith, ==_iff a b)
policy_segment_eq_iff (big a) (big b) = ground (arith, ==_iff a b)
policy_segment_eq_iff (name a) (position b) = ground arith
policy_segment_eq_iff (name a) (big b) = ground arith
policy_segment_eq_iff (position a) (name b) = ground arith
policy_segment_eq_iff (position a) (big b) = ground arith
policy_segment_eq_iff (big a) (name b) = ground arith
policy_segment_eq_iff (big a) (position b) = ground arith

selector_eq_iff : (p q : Selector) → (selector_eq p q ≡ true) ↔ (p ≡ q)
unfolding selector_eq
selector_eq_iff [] [] = ground arith
selector_eq_iff [] (s ∷ q) = ground arith
selector_eq_iff (r ∷ p) [] = ground arith
selector_eq_iff (r ∷ p) (s ∷ q) = ground (arith, policy_segment_eq_iff r s, selector_eq_iff p q)

abbrev is_marker : Selector → Option Selector → Bool
is_marker selector none = false
is_marker selector (some marker) = selector_eq selector marker

-- A selector without a wildcard matches a path exactly when it is the path's marker.
policy_selector_matches-is_marker :
    (selector : Selector) (path : PlanPath)
    → has_wildcard selector ≡ false
    → is_safe selector ≡ true
    → policy_selector_matches selector path ≡ is_marker selector (concrete_path path)
unfolding policy_selector_matches concrete_path has_wildcard is_safe selector_eq segment_matches
    policy_segment_eq
policy_selector_matches-is_marker [] [] plain safe = refl
policy_selector_matches-is_marker [] (key k ∷ path) plain safe = ground arith
policy_selector_matches-is_marker [] (index n ∷ path) plain safe = ground arith
policy_selector_matches-is_marker (s ∷ ss) [] plain safe = refl
policy_selector_matches-is_marker (name a ∷ ss) (key k ∷ path) plain safe =
    ground (arith, plain, safe, text_eq_comm k a, policy_selector_matches-is_marker ss path)
policy_selector_matches-is_marker (name a ∷ ss) (index n ∷ path) plain safe = ground (arith, plain)
policy_selector_matches-is_marker (position m ∷ ss) (key k ∷ path) plain safe = ground arith
policy_selector_matches-is_marker (position m ∷ ss) (index n ∷ path) plain safe =
    ground (arith, plain, safe, policy_selector_matches-is_marker ss path)
policy_selector_matches-is_marker (big m ∷ ss) (key k ∷ path) plain safe = ground arith
policy_selector_matches-is_marker (big m ∷ ss) (index n ∷ path) plain safe = ground arith

abbrev pub or_else : Option CompiledEntry → Option CompiledEntry → Option CompiledEntry
or_else (some c) other = some c
or_else none other = other

abbrev pub if_matches : CompiledEntry → PlanPath → Option CompiledEntry
if_matches c path = if policy_selector_matches c.entry.selector path then some c else none

abbrev pub IsBelow : ℕ → CompiledEntry → Type 0
IsBelow n c = c.order < n

find_exact-append :
    (cs : List CompiledEntry) (c : CompiledEntry) (marker : Selector)
    → find_exact (cs ++ c ∷ []) marker
      ≡ or_else
          (find_exact cs marker)
          (if selector_eq c.entry.selector marker then some c else none)
unfolding find_exact
find_exact-append [] c marker = ground arith
find_exact-append (d ∷ cs) c marker = ground (arith, find_exact-append cs c marker)

-- The entry of the map at a marker has that selector.
find_exact-selector :
    (cs : List CompiledEntry) (marker : Selector) {c : CompiledEntry}
    → find_exact cs marker ≡ some c
    → selector_eq c.entry.selector marker ≡ true
unfolding find_exact
find_exact-selector [] marker h = cc
find_exact-selector (d ∷ cs) marker {c} h = ground (arith, h, find_exact-selector cs marker {c = c})

-- What the loop keeps: orders below the next, and exact entries without wildcards.
pub record IsExact (n : ℕ) (c : CompiledEntry) : Type 0 where
  pub below : c.order < n
  pub plain : has_wildcard c.entry.selector ≡ false
  pub safe : is_safe c.entry.selector ≡ true

found_or : CompiledEntry → Option CompiledEntry → CompiledEntry
found_or d none = d
found_or d (some c) = c

find_exact-IsExact :
    (n : ℕ) (cs : List CompiledEntry) (marker : Selector) {c : CompiledEntry}
    → All (IsExact n) cs
    → find_exact cs marker ≡ some c
    → IsExact n c
unfolding find_exact found_or
find_exact-IsExact n [] marker all h = cc
find_exact-IsExact n (d ∷ cs) marker {c} all h =
    elim (Bool-cases (selector_eq d.entry.selector marker)) [
      | inl here ↦ subst (IsExact n) (ap (found_or d) (rw here at h)) all.0
      | inr later ↦ find_exact-IsExact n cs marker all.1 (rw later at h)
    ]

exact_match_of_none :
    (cs : List CompiledEntry) (path : PlanPath)
    → concrete_path path ≡ none
    → exact_match cs path ≡ none
unfolding exact_match
exact_match_of_none cs path e = rw (e, exact_match) refl

exact_match_of_some :
    (cs : List CompiledEntry) (path : PlanPath) {marker : Selector}
    → concrete_path path ≡ some marker
    → exact_match cs path ≡ keep_if_matches path (find_exact cs marker)
unfolding exact_match
exact_match_of_some cs path e = rw (e, exact_match) refl

-- The check of the exact entry that is found never fails.
exact_match-find_exact :
    (n : ℕ) (cs : List CompiledEntry) (path : PlanPath) {marker : Selector}
    → All (IsExact n) cs
    → concrete_path path ≡ some marker
    → exact_match cs path ≡ find_exact cs marker
unfolding keep_if_matches
exact_match-find_exact n cs path {marker} all e =
    exact_match_of_some cs path e ∙ elim (Option-cases (find_exact cs marker)) [
      | inl absent ↦ rw absent refl
      | inr (c, found) ↦
          let x = find_exact-IsExact n cs marker all found in
          let is_match : policy_selector_matches c.entry.selector path ≡ true =
            policy_selector_matches-is_marker c.entry.selector path x.plain x.safe
            ∙ rw e (find_exact-selector cs marker found) in
          rw found (rw is_match refl)
    ]

pub exact_match-append :
    (n : ℕ) (cs : List CompiledEntry) (c : CompiledEntry) (path : PlanPath)
    → All (IsExact n) (cs ++ c ∷ [])
    → All (IsExact n) cs
    → IsExact n c
    → exact_match (cs ++ c ∷ []) path ≡ or_else (exact_match cs path) (if_matches c path)
exact_match-append n cs c path all before this =
    let is_marked = policy_selector_matches-is_marker c.entry.selector path this.plain this.safe in
    elim (Option-cases (concrete_path path)) [
      | inl unsafe ↦ ground (
        arith,
        exact_match_of_none (cs ++ c ∷ []) path unsafe,
        exact_match_of_none cs path unsafe,
        unsafe,
        is_marked,
      )
      | inr (marker, e) ↦ ground (
        arith,
        exact_match-find_exact n (cs ++ c ∷ []) path all e,
        exact_match-find_exact n cs path before e,
        find_exact-append cs c marker,
        e,
        is_marked,
      )
    ]

-- An exact entry whose selector another one has already is found as that one.
pub exact_match-repeated :
    (n : ℕ) (cs : List CompiledEntry) (e : PolicyEntry) (path : PlanPath)
    → All (IsExact n) cs
    → has_wildcard e.selector ≡ false
    → is_safe e.selector ≡ true
    → exists (find_exact cs e.selector) ≡ true
    → policy_selector_matches e.selector path ≡ true
    → exists (exact_match cs path) ≡ true
exact_match-repeated n cs e path all plain safe repeated h =
    let is_marked = policy_selector_matches-is_marker e.selector path plain safe in
    elim (Option-cases (concrete_path path)) [
      | inl unsafe ↦ ground (arith, unsafe, is_marked, h)
      | inr (marker, m) ↦ ground (
        arith,
        exact_match-find_exact n cs path all m,
        m,
        is_marked,
        h,
        repeated,
        selector_eq_iff e.selector marker,
      )
    ]

abbrev pub IsBelowOption : ℕ → Option CompiledEntry → Type 0
IsBelowOption n none = Unit
IsBelowOption n (some c) = IsBelow n c

pub exact_match-IsBelowOption :
    (n : ℕ) (cs : List CompiledEntry) (path : PlanPath)
    → All (IsExact n) cs
    → IsBelowOption n (exact_match cs path)
exact_match-IsBelowOption n cs path all = elim (Option-cases (concrete_path path)) [
  | inl unsafe ↦ rw (exact_match_of_none cs path unsafe) tt
  | inr (marker, m) ↦
      rw (exact_match-find_exact n cs path all m) (elim (Option-cases (find_exact cs marker)) [
        | inl absent ↦ rw absent tt
        | inr (c, found) ↦ rw found (find_exact-IsExact n cs marker all found).below
      ])
]
