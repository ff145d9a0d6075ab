-- ===== src/Assessment/Redaction.antt =====
-- go/internal/assessment/eval.go: what `DiffChangesWithSets` shows of values under a mask.
use infrawright_dev.Base.{
  ℕ, suc, Bool, true, false, not, ◌&&◌, List, [], ◌∷◌, ◌≡◌, ◌⊎◌, inl, inr, refl, if◌then◌else◌,
  Text, text_eq, member, All, All-append,
}
use infrawright_dev.Canonjson.Values.{
  Json, null, boolean, array, object, Items, no_items, item, Fields, no_fields, field, items,
  lookup, all_keys, Equality,
}
use infrawright_dev.Assessment.Sets.{set_membership}
use infrawright_dev.Assessment.Paths.{
  Segment, key, index, PlanPath, append_path, truthy_paths_at, mask_is_sensitive,
  sensitive_mask_child,
}
use infrawright_dev.Assessment.Diff.{concat_map, first, others, is_same_set}
use infrawright_dev.Assessment.Changes.{
  PlanChange, redacted_change, scalar, moved, leaf_changes, null_changes, set_attribute_changes,
  diff_changes_at, member_changes, array_changes, diff_changes_with_sets,
}

-- The change is marked sensitive and carries no value and no member.
pub record IsWithheld (c : PlanChange) : Type 0 where
  pub sensitive : c.sensitive ≡ true
  pub before : c.before ≡ null
  pub after : c.after ≡ null
  pub added : c.added ≡ []
  pub removed : c.removed ≡ []

-- One of the masks is collapsed to true.
abbrev pub Covers : Json → Json → Type 0
Covers mask_before mask_after = (mask_before ≡ boolean true) ⊎ (mask_after ≡ boolean true)

mask_is_sensitive-true : mask_is_sensitive (boolean true) ≡ true
unfolding mask_is_sensitive truthy_paths_at
mask_is_sensitive-true = refl

Covers-mask_is_sensitive :
    (mask_before mask_after : Json)
    → Covers mask_before mask_after
    → (not (mask_is_sensitive mask_before) && not (mask_is_sensitive mask_after)) ≡ false
Covers-mask_is_sensitive mask_before mask_after (inl h) = rw (h, mask_is_sensitive-true) refl
Covers-mask_is_sensitive mask_before mask_after (inr h) =
    rw (h, mask_is_sensitive-true) (hidden (mask_is_sensitive mask_before))
  where
    hidden : (b : Bool) → (not b && false) ≡ false
    hidden true = refl
    hidden false = refl

redacted_change-IsWithheld :
    (c : PlanChange) (mask_before mask_after : Json)
    → Covers mask_before mask_after
    → IsWithheld (redacted_change c mask_before mask_after)
unfolding redacted_change
redacted_change-IsWithheld c mask_before mask_after h =
    rw (Covers-mask_is_sensitive mask_before mask_after h, redacted_change)
      (record { sensitive = refl; before = refl; after = refl; added = refl; removed = refl })

sensitive_mask_child-true : (s : Segment) → sensitive_mask_child (boolean true) s ≡ boolean true
unfolding sensitive_mask_child
sensitive_mask_child-true (key k) = refl
sensitive_mask_child-true (index i) = refl

sensitive_mask_child-Covers :
    (mask_before mask_after : Json) (s : Segment)
    → Covers mask_before mask_after
    → Covers (sensitive_mask_child mask_before s) (sensitive_mask_child mask_after s)
sensitive_mask_child-Covers mask_before mask_after s (inl h) =
    inl (rw h (sensitive_mask_child-true s))
sensitive_mask_child-Covers mask_before mask_after s (inr h) =
    inr (rw h (sensitive_mask_child-true s))

abbrev pub Withheld : List PlanChange → Type 0
Withheld = All IsWithheld

if-Withheld :
    (test : Bool) (xs ys : List PlanChange)
    → Withheld xs
    → Withheld ys
    → Withheld (if test then xs else ys)
if-Withheld true xs ys h k = h
if-Withheld false xs ys h k = k

concat_map-Withheld :
    (f : Text → List PlanChange)
    → ((k : Text) → Withheld (f k))
    → (ks : List Text) → Withheld (concat_map f ks)
concat_map-Withheld f h [] = tt
concat_map-Withheld f h (k ∷ ks) =
    All-append IsWithheld (f k) (concat_map f ks) (h k) (concat_map-Withheld f h ks)

module _ (eq : Equality) where
  leaf_changes-Withheld :
      (v w mask_before mask_after : Json) (path : PlanPath)
      → Covers mask_before mask_after
      → Withheld (leaf_changes eq v w mask_before mask_after path)
  leaf_changes-Withheld v w mask_before mask_after path h =
      if-Withheld (eq.json_equal v w) _ _ tt
        (redacted_change-IsWithheld (scalar path v w) mask_before mask_after h, tt)

  null_changes-Withheld :
      (ws : Items) (mask_before mask_after : Json) (i : ℕ) (path : PlanPath)
      → Covers mask_before mask_after
      → Withheld (null_changes eq ws mask_before mask_after i path)
  unfolding null_changes
  null_changes-Withheld no_items mask_before mask_after i path h = tt
  null_changes-Withheld (item w ws) mask_before mask_after i path h =
      All-append IsWithheld _ _
        (leaf_changes-Withheld null w (sensitive_mask_child mask_before (index i))
          (sensitive_mask_child mask_after (index i)) (append_path path (index i))
          (sensitive_mask_child-Covers mask_before mask_after (index i) h))
        (null_changes-Withheld ws mask_before mask_after (suc i) path h)

  set_attribute_changes-Withheld :
      (walk : List PlanChange) (v w mask_before mask_after : Json) (path : PlanPath)
      → Covers mask_before mask_after
      → Withheld walk
      → Withheld (set_attribute_changes eq walk v w mask_before mask_after path)
  unfolding set_attribute_changes
  set_attribute_changes-Withheld walk (array vs) (array ws) mask_before mask_after path h k =
      let m = set_membership eq (items vs) (items ws) in
      if-Withheld (is_same_set m) _ _ tt
        (redacted_change-IsWithheld (moved path m.delta) mask_before mask_after h, tt)
  set_attribute_changes-Withheld walk v w mask_before mask_after path h k = k

  mutual
    unfolding diff_changes_at

    diff_changes_at-Withheld :
        (v w mask_before mask_after : Json) (path : PlanPath) (sets : List Text)
        → Covers mask_before mask_after
        → Withheld (diff_changes_at eq v w mask_before mask_after path sets)
    diff_changes_at-Withheld (object fs) (object gs) mask_before mask_after path sets h =
        if-Withheld (eq.json_equal (object fs) (object gs)) _ _ tt (
          concat_map-Withheld _
            (λ k.
              let child_before = sensitive_mask_child mask_before (key k) in
              let child_after = sensitive_mask_child mask_after (key k) in
              let here = append_path path (key k) in
              let covers = sensitive_mask_child-Covers mask_before mask_after (key k) h in
              let walks =
                member_changes-Withheld fs k (lookup k gs) child_before child_after here covers in
              if-Withheld (member k sets) _ _
                (set_attribute_changes-Withheld _ (lookup k fs) (lookup k gs) child_before
                  child_after here covers walks)
                walks)
            (all_keys fs gs))
    diff_changes_at-Withheld (array vs) (array ws) mask_before mask_after path sets h =
        if-Withheld (eq.json_equal (array vs) (array ws)) _ _ tt
          (array_changes-Withheld vs ws mask_before mask_after 0 path h)
    diff_changes_at-Withheld v w mask_before mask_after path sets h =
        leaf_changes-Withheld v w mask_before mask_after path h

    member_changes-Withheld :
        (fs : Fields) (name : Text) (w mask_before mask_after : Json) (path : PlanPath)
        → Covers mask_before mask_after
        → Withheld (member_changes eq name fs w mask_before mask_after path)
    member_changes-Withheld no_fields name w mask_before mask_after path h =
        leaf_changes-Withheld null w mask_before mask_after path h
    member_changes-Withheld (field k v rest) name w mask_before mask_after path h =
        if-Withheld (text_eq name k) _ _
          (diff_changes_at-Withheld v w mask_before mask_after path [] h)
          (member_changes-Withheld rest name w mask_before mask_after path h)

    array_changes-Withheld :
        (vs ws : Items) (mask_before mask_after : Json) (i : ℕ) (path : PlanPath)
        → Covers mask_before mask_after
        → Withheld (array_changes eq vs ws mask_before mask_after i path)
    array_changes-Withheld no_items ws mask_before mask_after i path h =
        null_changes-Withheld ws mask_before mask_after i path h
    array_changes-Withheld (item v vs) ws mask_before mask_after i path h =
        All-append IsWithheld _ _
          (diff_changes_at-Withheld v (first ws) (sensitive_mask_child mask_before (index i))
            (sensitive_mask_child mask_after (index i)) (append_path path (index i)) []
            (sensitive_mask_child-Covers mask_before mask_after (index i) h))
          (array_changes-Withheld vs (others ws) mask_before mask_after (suc i) path h)

  -- Where the mask of one side is collapsed to true, every change that `DiffChangesWithSets` reports
  -- is marked sensitive and carries no value and no member, however deep it stands.
  pub diff_changes_with_sets-Withheld :
      (before after mask_before mask_after : Json) (sets : List Text)
      → Covers mask_before mask_after
      → Withheld (diff_changes_with_sets eq before after mask_before mask_after sets)
  unfolding diff_changes_with_sets
  diff_changes_with_sets-Withheld before after mask_before mask_after sets h =
      diff_changes_at-Withheld before after mask_before mask_after [] sets h
