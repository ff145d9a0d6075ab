-- ===== src/Assessment/Reported.antt =====
-- go/internal/assessment/eval.go: the path list of `updateContent`, with its markers.
use infrawright_dev.Base.Sorting.{insert_sorted, stable_sort}
use infrawright_dev.Base.{
  Bool, true, false, not, ◌&&◌, ◌||◌, List, [], ◌∷◌, ◌++◌, map, ◌≡◌, ◌↔◌, refl, ap, ◌∙◌, arith,
  Text, text_eq_iff, ==_iff,
}
use infrawright_dev.Canonjson.Values.{Equality}
use infrawright_dev.Assessment.Paths.{
  Segment, key, index, PlanPath, segment_eq, path_eq, has_path, path_lt, same_paths, truthy_paths,
  is_empty,
}
use infrawright_dev.Assessment.Changes.{diff_changes_with_sets}
use infrawright_dev.Assessment.Update.{
  Change, opaque_update, identity_change, sensitivity_change, collapse_set_paths, path_set, visible,
  has_empty, paths_if, visible_paths, update_paths_from, update_content,
}

segment_eq_iff : (r s : Segment) → (segment_eq r s ≡ true) ↔ (r ≡ s)
unfolding segment_eq
segment_eq_iff (key a) (key b) = ground (arith, text_eq_iff a b)
segment_eq_iff (key a) (index n) = ground arith
segment_eq_iff (index n) (key a) = ground arith
segment_eq_iff (index m) (index n) = ground (arith, ==_iff m n)

pub path_eq_iff : (p q : PlanPath) → (path_eq p q ≡ true) ↔ (p ≡ q)
unfolding path_eq
path_eq_iff [] [] = ground arith
path_eq_iff [] (s ∷ q) = ground arith
path_eq_iff (r ∷ p) [] = ground arith
path_eq_iff (r ∷ p) (s ∷ q) = ground (arith, segment_eq_iff r s, path_eq_iff p q)

pub has_path-append :
    (p : PlanPath) (xs ys : List PlanPath)
    → has_path p (xs ++ ys) ≡ (has_path p xs || has_path p ys)
unfolding has_path
has_path-append p [] ys = refl
has_path-append p (x ∷ xs) ys = ground (arith, has_path-append p xs ys)

has_path-path_set : (p : PlanPath) (xs : List PlanPath) → has_path p (path_set xs) ≡ has_path p xs
unfolding has_path path_set
has_path-path_set p [] = refl
has_path-path_set p (x ∷ xs) =
    ground (arith, has_path-path_set p xs, has_path-path_set x xs, path_eq_iff p x)

has_path-insert_sorted :
    (p x : PlanPath) (xs : List PlanPath)
    → has_path p (insert_sorted path_lt x xs) ≡ (path_eq p x || has_path p xs)
unfolding has_path insert_sorted
has_path-insert_sorted p x [] = refl
has_path-insert_sorted p x (y ∷ ys) = ground (arith, has_path-insert_sorted p x ys)

has_path-stable_sort :
    (p : PlanPath) (xs : List PlanPath) → has_path p (stable_sort path_lt xs) ≡ has_path p xs
unfolding has_path stable_sort
has_path-stable_sort p [] = refl
has_path-stable_sort p (x ∷ xs) =
    has_path-insert_sorted p x (stable_sort path_lt xs)
    ∙ ap (λ b. path_eq p x || b) (has_path-stable_sort p xs)

is_empty-path_set : (xs : List PlanPath) → is_empty (path_set xs) ≡ is_empty xs
unfolding path_set has_path
is_empty-path_set [] = refl
is_empty-path_set (x ∷ xs) = ground (arith, is_empty-path_set xs)

is_empty-stable_sort : (xs : List PlanPath) → is_empty (stable_sort path_lt xs) ≡ is_empty xs
unfolding stable_sort insert_sorted
is_empty-stable_sort [] = refl
is_empty-stable_sort (x ∷ xs) = ground (arith, is_empty-stable_sort xs)

-- The path that is reported for a path: the marker for the path of the whole value.
abbrev pub shown : PlanPath → PlanPath
shown [] = opaque_update
shown (s ∷ ss) = s ∷ ss

has_path-visible :
    (s : Segment) (p : PlanPath) (ps : List PlanPath)
    → has_path (s ∷ p) ps ≡ true
    → has_path (s ∷ p) (visible ps) ≡ true
unfolding has_path visible path_eq
has_path-visible s p [] h = h
has_path-visible s p ([] ∷ ps) h = has_path-visible s p ps h
has_path-visible s p ((r ∷ q) ∷ ps) h = ground (arith, h, has_path-visible s p ps)

has_path-has_empty : (ps : List PlanPath) → has_path [] ps ≡ true → has_empty ps ≡ true
unfolding has_path has_empty path_eq
has_path-has_empty [] h = h
has_path-has_empty ([] ∷ ps) h = refl
has_path-has_empty ((r ∷ q) ∷ ps) h = has_path-has_empty ps h

has_path-paths_if : (test : Bool) (p : PlanPath) → has_path p (paths_if test p) ≡ test
unfolding has_path
has_path-paths_if true p = rw ((path_eq_iff p p).1 refl) refl
has_path-paths_if false p = refl

pub has_path-left :
    (p : PlanPath) (xs ys : List PlanPath) → has_path p xs ≡ true → has_path p (xs ++ ys) ≡ true
has_path-left p xs ys h = has_path-append p xs ys ∙ rw h refl

pub has_path-right :
    (p : PlanPath) (xs ys : List PlanPath) → has_path p ys ≡ true → has_path p (xs ++ ys) ≡ true
has_path-right p xs ys h = ground (arith, has_path-append p xs ys, h)

has_path-first_marker :
    (vs ys : List PlanPath) (b : Bool) (p : PlanPath)
    → (b || has_path p (vs ++ (paths_if (not b) p ++ ys))) ≡ true
has_path-first_marker vs ys true p = refl
has_path-first_marker vs ys false p =
    has_path-right p vs (p ∷ ys) (has_path-left p (p ∷ []) ys (has_path-paths_if true p))

has_path-last_marker :
    (vs ys : List PlanPath) (b : Bool) (p : PlanPath)
    → (b || has_path p (vs ++ (ys ++ paths_if (not b) p))) ≡ true
has_path-last_marker vs ys true p = refl
has_path-last_marker vs ys false p =
    has_path-right p vs (ys ++ p ∷ []) (has_path-right p ys (p ∷ []) (has_path-paths_if true p))

or_mono : (b c d : Bool) → (c ≡ true → d ≡ true) → (b || c) ≡ true → (b || d) ≡ true
or_mono true c d f h = refl
or_mono false c d f h = f h

is_empty-append : (xs ys : List PlanPath) → is_empty (xs ++ ys) ≡ (is_empty xs && is_empty ys)
is_empty-append [] ys = refl
is_empty-append (x ∷ xs) ys = refl

is_empty-paths_if : (test : Bool) (p : PlanPath) → is_empty (paths_if test p) ≡ not test
is_empty-paths_if true p = refl
is_empty-paths_if false p = refl

module _ (eq : Equality) (change : Change) (sets : List Text) where
  abbrev pub candidates : List PlanPath → List PlanPath
  candidates value_paths =
      value_paths ++ collapse_set_paths (truthy_paths change.after_unknown) sets

  -- The list before it is sorted: what is visible, and the marker if need be.
  collected : List PlanPath → List PlanPath
  collected value_paths =
      let unique = visible_paths eq change (candidates value_paths) in
      unique ++ paths_if (has_empty (candidates value_paths) || is_empty unique) opaque_update

  has_path-update_paths_from :
      (p : PlanPath) (value_paths : List PlanPath)
      → has_path p (update_paths_from eq change value_paths sets)
        ≡ has_path p (collected value_paths)
  unfolding update_paths_from collected
  has_path-update_paths_from p value_paths =
      has_path-stable_sort p (path_set (collected value_paths))
      ∙ has_path-path_set p (collected value_paths)

  is_empty-collected : (value_paths : List PlanPath) → is_empty (collected value_paths) ≡ false
  unfolding collected
  is_empty-collected value_paths =
      let unique = visible_paths eq change (candidates value_paths) in
      let opaque = has_empty (candidates value_paths) || is_empty unique in
      ground (
        arith,
        is_empty-append unique (paths_if opaque opaque_update),
        is_empty-paths_if opaque opaque_update,
      )

  has_path-collected_of_visible :
      (p : PlanPath) (value_paths : List PlanPath)
      → has_path p (visible_paths eq change (candidates value_paths)) ≡ true
      → has_path p (collected value_paths) ≡ true
  unfolding collected
  has_path-collected_of_visible p value_paths h = has_path-left p _ _ h

  has_path-visible_paths :
      (p : PlanPath) (ps : List PlanPath)
      → has_path p (visible ps) ≡ true
      → has_path p (visible_paths eq change ps) ≡ true
  unfolding visible_paths
  has_path-visible_paths p ps h = has_path-left p _ _ h

  is_empty-update_paths_from :
      (value_paths : List PlanPath)
      → is_empty (update_paths_from eq change value_paths sets) ≡ false
  unfolding update_paths_from collected
  is_empty-update_paths_from value_paths =
      is_empty-stable_sort (path_set (collected value_paths))
      ∙ is_empty-path_set (collected value_paths)
      ∙ is_empty-collected value_paths

  -- A candidate is collected: itself, or as the marker when it is the path of the whole value.
  has_path-collected :
      (p : PlanPath) (value_paths : List PlanPath)
      → has_path p (candidates value_paths) ≡ true
      → has_path (shown p) (collected value_paths) ≡ true
  unfolding collected
  has_path-collected [] value_paths h =
      let unique = visible_paths eq change (candidates value_paths) in
      let opaque = has_empty (candidates value_paths) || is_empty unique in
      ground (
        arith,
        has_path-append opaque_update unique (paths_if opaque opaque_update),
        has_path-paths_if opaque opaque_update,
        has_path-has_empty (candidates value_paths) h,
      )
  has_path-collected (s ∷ p) value_paths h = has_path-collected_of_visible (s ∷ p) value_paths (
      has_path-visible_paths (s ∷ p) (candidates value_paths)
        (has_path-visible s p (candidates value_paths) h))

  -- A path of the lists that the path list is made from stands in it, as `shown` writes it.
  pub update_content-has_path :
      (p : PlanPath)
      → has_path p (
          candidates (
            map
              (λ c. c.path)
              (diff_changes_with_sets eq change.before change.after change.before_sensitive
                change.after_sensitive sets)))
        ≡ true
      → has_path (shown p) (update_content eq change sets).0 ≡ true
  unfolding update_content
  update_content-has_path p h =
      let value_paths =
        map (λ c. c.path)
          (diff_changes_with_sets eq change.before change.after change.before_sensitive
            change.after_sensitive sets) in
      has_path-update_paths_from (shown p) value_paths ∙ has_path-collected p value_paths h

  has_path-identity :
      (ps : List PlanPath)
      → (eq.json_equal change.before_identity change.after_identity
          || has_path identity_change (visible_paths eq change ps))
        ≡ true
  unfolding visible_paths
  has_path-identity ps =
      has_path-first_marker (visible ps) _
        (eq.json_equal change.before_identity change.after_identity) identity_change

  has_path-sensitivity :
      (ps : List PlanPath)
      → (same_paths (truthy_paths change.before_sensitive) (truthy_paths change.after_sensitive)
          || has_path sensitivity_change (visible_paths eq change ps))
        ≡ true
  unfolding visible_paths
  has_path-sensitivity ps =
      has_path-last_marker (visible ps) _
        (same_paths (truthy_paths change.before_sensitive) (truthy_paths change.after_sensitive))
        sensitivity_change

  -- The path list of an update is not empty, it has the identity marker unless the identities are
  -- equal, and the sensitivity marker unless the masks mark the same paths, whatever the values are.
  pub update_paths_from-markers :
      (value_paths : List PlanPath)
      → let paths = update_paths_from eq change value_paths sets in
        (is_empty paths ≡ false)
        × ((eq.json_equal change.before_identity change.after_identity
              || has_path identity_change paths)
            ≡ true)
        × ((same_paths (truthy_paths change.before_sensitive) (truthy_paths change.after_sensitive)
              || has_path sensitivity_change paths)
            ≡ true)
  update_paths_from-markers value_paths = (
    is_empty-update_paths_from value_paths,
    or_mono (eq.json_equal change.before_identity change.after_identity)
        (has_path identity_change unique) (has_path identity_change paths)
        (collects identity_change) (has_path-identity (candidates value_paths)),
    or_mono
        (same_paths (truthy_paths change.before_sensitive) (truthy_paths change.after_sensitive))
        (has_path sensitivity_change unique) (has_path sensitivity_change paths)
        (collects sensitivity_change) (has_path-sensitivity (candidates value_paths)),
  )
    where
      unique : List PlanPath
      unique = visible_paths eq change (candidates value_paths)

      paths : List PlanPath
      paths = update_paths_from eq change value_paths sets

      collects : (p : PlanPath) → has_path p unique ≡ true → has_path p paths ≡ true
      collects p h =
          has_path-update_paths_from p value_paths ∙ has_path-collected_of_visible p value_paths h
