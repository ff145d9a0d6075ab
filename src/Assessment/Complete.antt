-- ===== src/Assessment/Complete.antt =====
-- go/internal/assessment/eval.go: the path list of `updateContent`, against the values before and after
-- and the mask of what is unknown.
use infrawright_dev.Canonjson.Values.{Equality}
use infrawright_dev.Assessment.Agreement.{paths_of, paths_of-diff_changes_with_sets}
use infrawright_dev.Assessment.Changes.{diff_changes_with_sets}
use infrawright_dev.Assessment.Diff.{diff_paths_with_sets}
use infrawright_dev.Assessment.Differs.{Differs, IsInUnmovedSet, Reports, diff_paths_at-Reports}
use infrawright_dev.Assessment.Marked.{IsMarked, has_path-truthy_paths_at}
use infrawright_dev.Assessment.Paths.{key, index, PlanPath, has_path, truthy_paths, path_eq}
use infrawright_dev.Assessment.Reported.{
  path_eq_iff, has_path-left, has_path-right, shown, update_content-has_path,
}
use infrawright_dev.Assessment.Update.{
  Change, collapse_set_path, collapse_set_paths, update_content,
}
use infrawright_dev.Base.{
  true, List, [], ◌∷◌, ◌++◌, map, ◌≡◌, ◌⊎◌, refl, ap, ◌∙◌, subst, arith, Text, member,
  if◌then◌else◌, Bool-cases, inl, inr,
}

-- The paths hold the beginning of a path, the opaque marker for the empty one.
pub record Shows (p : PlanPath) (paths : List PlanPath) : Type 0 where
  pub begin : PlanPath
  pub end : PlanPath
  pub shape : p ≡ begin ++ end
  pub reported : has_path (shown begin) paths ≡ true

-- The path itself, or the set attribute that it goes into.
abbrev pub attribute_of : List Text → PlanPath → PlanPath
attribute_of sets (key k ∷ p) = if member k sets then key k ∷ [] else key k ∷ p
attribute_of sets p = p

collapse_set_path-attribute_of :
    (sets : List Text) (p : PlanPath) → collapse_set_path sets p ≡ attribute_of sets p
unfolding collapse_set_path
collapse_set_path-attribute_of sets [] = refl
collapse_set_path-attribute_of sets (index i ∷ p) = refl
collapse_set_path-attribute_of sets (key k ∷ s ∷ p) = refl
collapse_set_path-attribute_of sets (key k ∷ []) = elim (Bool-cases (member k sets)) [
  | inl in_set ↦ rw in_set refl
  | inr other ↦ rw other refl
]

has_path-map :
    (f : PlanPath → PlanPath) (p : PlanPath) (ps : List PlanPath)
    → has_path p ps ≡ true
    → has_path (f p) (map f ps) ≡ true
unfolding has_path
has_path-map f p [] h = h
has_path-map f p (q ∷ ps) h = elim (Bool-cases (path_eq p q)) [
  | inl same ↦
      let equal = (path_eq_iff (f p) (f q)).1 (ap f ((path_eq_iff p q).0 same)) in rw equal refl
  | inr other ↦ let later = has_path-map f p ps (ground (arith, h, other)) in ground (arith, later)
]

module _ (eq : Equality) (change : Change) (sets : List Text) where
  -- The paths of the values that differ.
  value_paths : List PlanPath
  value_paths = paths_of (
      diff_changes_with_sets eq change.before change.after change.before_sensitive
        change.after_sensitive sets)

  has_path-value_paths :
      (p : PlanPath)
      → has_path p (diff_paths_with_sets eq change.before change.after sets) ≡ true
      → has_path p value_paths ≡ true
  unfolding value_paths
  has_path-value_paths p h =
      ap (has_path p) (
        paths_of-diff_changes_with_sets eq change.before change.after change.before_sensitive
          change.after_sensitive sets)
      ∙ h

  Reports-Shows :
      (p : PlanPath)
      → Reports [] p (diff_paths_with_sets eq change.before change.after sets)
      → Shows p (update_content eq change sets).0
  unfolding value_paths
  Reports-Shows p r = record {
    begin = r.begin;
    end = r.end;
    shape = r.shape;
    reported = update_content-has_path eq change sets r.begin (
        has_path-left r.begin value_paths
          (collapse_set_paths (truthy_paths change.after_unknown) sets)
          (has_path-value_paths r.begin r.reported));
  }

  -- When the values before and after an update differ at a path and all the way to it, as JSONEqual
  -- tells, and those at its end are neither two objects nor two arrays, the path list of the update
  -- holds a beginning of the path, the opaque marker standing for the empty one, or the path goes into a
  -- set attribute whose members are the same on both sides.
  pub update_content-Shows :
      (p : PlanPath)
      → Differs eq p change.before change.after
      → Shows p (update_content eq change sets).0
        ⊎ IsInUnmovedSet eq sets p change.before change.after
  unfolding diff_paths_with_sets
  update_content-Shows p h =
      elim (diff_paths_at-Reports eq change.before change.after [] p sets h) [
        | inl r ↦ inl (Reports-Shows p r)
        | inr same ↦ inr same
      ]

  -- A path at which the value after an update is unknown until apply stands in the path list of the
  -- update, one in a set attribute as the attribute, and the empty one as the opaque marker.
  pub update_content-attribute_of :
      (p : PlanPath)
      → IsMarked p change.after_unknown
      → has_path (shown (attribute_of sets p)) (update_content eq change sets).0 ≡ true
  unfolding value_paths collapse_set_paths
  update_content-attribute_of p h =
      let marks = truthy_paths change.after_unknown in
      let collapsed =
        subst (λ q. has_path q (map (collapse_set_path sets) marks) ≡ true)
          (collapse_set_path-attribute_of sets p)
          (has_path-map (collapse_set_path sets) p marks
            (has_path-truthy_paths_at change.after_unknown [] p h)) in
      update_content-has_path eq change sets (attribute_of sets p)
        (has_path-right (attribute_of sets p) value_paths (collapse_set_paths marks sets) collapsed)
