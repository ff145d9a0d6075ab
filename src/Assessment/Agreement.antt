-- ===== src/Assessment/Agreement.antt =====
-- go/internal/assessment/eval.go: `DiffChangesWithSets` and `DiffPathsWithSets`, compared.
use infrawright_dev.Base.{
  ℕ, suc, Bool, true, false, List, [], ◌∷◌, ◌++◌, map, ◌≡◌, refl, ap, ◌∙◌, Bool-cases, inl, inr,
  Text, member, text_eq, if◌then◌else◌, not, ◌&&◌,
}
use infrawright_dev.Canonjson.Values.{
  Json, null, array, object, Items, no_items, item, Fields, no_fields, field, items, lookup,
  all_keys, Equality,
}
use infrawright_dev.Assessment.Sets.{set_membership}
use infrawright_dev.Assessment.Paths.{
  key, index, PlanPath, append_path, sensitive_mask_child, mask_is_sensitive,
}
use infrawright_dev.Assessment.Diff.{
  concat_map, first, others, is_same_set, leaf_paths, null_paths, set_attribute_paths,
  diff_paths_at, member_paths, array_paths, diff_paths_with_sets,
}
use infrawright_dev.Assessment.Changes.{
  PlanChange, redacted_change, scalar, moved, leaf_changes, null_changes, set_attribute_changes,
  diff_changes_at, member_changes, array_changes, diff_changes_with_sets,
}

abbrev pub paths_of : List PlanChange → List PlanPath
paths_of = map (λ c. c.path)

paths_of-append :
    (xs ys : List PlanChange) {ps qs : List PlanPath}
    → paths_of xs ≡ ps
    → paths_of ys ≡ qs
    → paths_of (xs ++ ys) ≡ ps ++ qs
paths_of-append [] ys {ps} {qs} h k = k ∙ ap (λ l. l ++ qs) h
paths_of-append (x ∷ xs) ys {ps} {qs} h k =
    ap (λ l. x.path ∷ l) (paths_of-append xs ys refl k) ∙ ap (λ l. l ++ qs) h

paths_of-concat_map :
    (f : Text → List PlanChange) (g : Text → List PlanPath)
    → ((k : Text) → paths_of (f k) ≡ g k)
    → (ks : List Text) → paths_of (concat_map f ks) ≡ concat_map g ks
paths_of-concat_map f g h [] = refl
paths_of-concat_map f g h (k ∷ ks) =
    paths_of-append (f k) (concat_map f ks) (h k) (paths_of-concat_map f g h ks)

paths_of-if :
    (test : Bool) (xs ys : List PlanChange) {ps qs : List PlanPath}
    → paths_of xs ≡ ps
    → paths_of ys ≡ qs
    → paths_of (if test then xs else ys) ≡ (if test then ps else qs)
paths_of-if true xs ys h k = h
paths_of-if false xs ys h k = k

paths_of-redacted_change :
    (c : PlanChange) (mask_before mask_after : Json)
    → paths_of (redacted_change c mask_before mask_after ∷ []) ≡ c.path ∷ []
unfolding redacted_change
paths_of-redacted_change c mask_before mask_after =
    elim (Bool-cases (not (mask_is_sensitive mask_before) && not (mask_is_sensitive mask_after))) [
      | inl shown ↦ rw shown refl
      | inr hidden ↦ rw hidden refl
    ]

module _ (eq : Equality) where
  paths_of-leaf_changes :
      (v w mask_before mask_after : Json) (path : PlanPath)
      → paths_of (leaf_changes eq v w mask_before mask_after path) ≡ leaf_paths eq v w path
  paths_of-leaf_changes v w mask_before mask_after path =
      paths_of-if (eq.json_equal v w) _ _ refl
        (paths_of-redacted_change (scalar path v w) mask_before mask_after)

  paths_of-null_changes :
      (ws : Items) (mask_before mask_after : Json) (i : ℕ) (path : PlanPath)
      → paths_of (null_changes eq ws mask_before mask_after i path) ≡ null_paths eq ws i path
  unfolding null_changes null_paths
  paths_of-null_changes no_items mask_before mask_after i path = refl
  paths_of-null_changes (item w ws) mask_before mask_after i path =
      paths_of-append _ _
        (paths_of-leaf_changes null w (sensitive_mask_child mask_before (index i))
          (sensitive_mask_child mask_after (index i)) (append_path path (index i)))
        (paths_of-null_changes ws mask_before mask_after (suc i) path)

  paths_of-set_attribute_changes :
      (walk : List PlanChange) (v w mask_before mask_after : Json) (path : PlanPath)
      → paths_of (set_attribute_changes eq walk v w mask_before mask_after path)
        ≡ set_attribute_paths eq (paths_of walk) v w path
  unfolding set_attribute_changes set_attribute_paths
  paths_of-set_attribute_changes walk (array vs) (array ws) mask_before mask_after path =
      let m = set_membership eq (items vs) (items ws) in
      paths_of-if (is_same_set m) _ _ refl
        (paths_of-redacted_change (moved path m.delta) mask_before mask_after)
  paths_of-set_attribute_changes walk v w mask_before mask_after path = refl

  mutual
    unfolding diff_changes_at diff_paths_at

    paths_of-diff_changes_at :
        (v w mask_before mask_after : Json) (path : PlanPath) (sets : List Text)
        → paths_of (diff_changes_at eq v w mask_before mask_after path sets)
          ≡ diff_paths_at eq v w path sets
    paths_of-diff_changes_at (object fs) (object gs) mask_before mask_after path sets =
        paths_of-if (eq.json_equal (object fs) (object gs)) _ _ refl (
          paths_of-concat_map _ _
            (λ k.
              let child_before = sensitive_mask_child mask_before (key k) in
              let child_after = sensitive_mask_child mask_after (key k) in
              let here = append_path path (key k) in
              let walks =
                paths_of-member_changes fs k (lookup k gs) child_before child_after here in
              paths_of-if (member k sets) _ _
                (paths_of-set_attribute_changes _ (lookup k fs) (lookup k gs) child_before
                    child_after here
                  ∙ ap (λ walk. set_attribute_paths eq walk (lookup k fs) (lookup k gs) here) walks)
                walks)
            (all_keys fs gs))
    paths_of-diff_changes_at (array vs) (array ws) mask_before mask_after path sets =
        paths_of-if (eq.json_equal (array vs) (array ws)) _ _ refl
          (paths_of-array_changes vs ws mask_before mask_after 0 path)
    paths_of-diff_changes_at v w mask_before mask_after path sets =
        paths_of-leaf_changes v w mask_before mask_after path

    paths_of-member_changes :
        (fs : Fields) (name : Text) (w mask_before mask_after : Json) (path : PlanPath)
        → paths_of (member_changes eq name fs w mask_before mask_after path)
          ≡ member_paths eq name fs w path
    paths_of-member_changes no_fields name w mask_before mask_after path =
        paths_of-leaf_changes null w mask_before mask_after path
    paths_of-member_changes (field k v rest) name w mask_before mask_after path =
        paths_of-if (text_eq name k) _ _
          (paths_of-diff_changes_at v w mask_before mask_after path [])
          (paths_of-member_changes rest name w mask_before mask_after path)

    paths_of-array_changes :
        (vs ws : Items) (mask_before mask_after : Json) (i : ℕ) (path : PlanPath)
        → paths_of (array_changes eq vs ws mask_before mask_after i path)
          ≡ array_paths eq vs ws i path
    paths_of-array_changes no_items ws mask_before mask_after i path =
        paths_of-null_changes ws mask_before mask_after i path
    paths_of-array_changes (item v vs) ws mask_before mask_after i path =
        paths_of-append _ _
          (paths_of-diff_changes_at v (first ws) (sensitive_mask_child mask_before (index i))
            (sensitive_mask_child mask_after (index i)) (append_path path (index i)) [])
          (paths_of-array_changes vs (others ws) mask_before mask_after (suc i) path)

  -- The changes that `DiffChangesWithSets` carries stand, in order, at the paths that
  -- `DiffPathsWithSets` reports, whatever the masks hide.
  pub paths_of-diff_changes_with_sets :
      (before after mask_before mask_after : Json) (sets : List Text)
      → paths_of (diff_changes_with_sets eq before after mask_before mask_after sets)
        ≡ diff_paths_with_sets eq before after sets
  unfolding diff_changes_with_sets diff_paths_with_sets
  paths_of-diff_changes_with_sets before after mask_before mask_after sets =
      paths_of-diff_changes_at before after mask_before mask_after [] sets
