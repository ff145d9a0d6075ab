-- ===== src/Assessment/Differs.antt =====
-- go/internal/assessment/eval.go: the walk of two values, against a description of the places at which
-- they differ.
use infrawright_dev.Canonjson.Values.{
  Json, null, array, object, Items, no_items, item, Fields, no_fields, field, items, lookup,
  field_keys, key_set, all_keys, Equality,
}
use infrawright_dev.Assessment.Acceptance.{member-key_set}
use infrawright_dev.Assessment.Sets.{set_membership}
use infrawright_dev.Assessment.Paths.{Segment, key, index, PlanPath, append_path, has_path, nth}
use infrawright_dev.Assessment.Diff.{
  concat_map, first, others, is_same_set, leaf_paths, null_paths, set_attribute_paths,
  diff_paths_at, member_paths, array_paths,
}
use infrawright_dev.Assessment.Reported.{path_eq_iff, has_path-append}
use infrawright_dev.Refedges.SetMaps.{sorted, member-sorted}
use infrawright_dev.Base.{
  ℕ, zero, suc, ◌+◌, Bool, true, false, ◌||◌, List, [], ◌∷◌, ◌++◌, append_assoc, append-nil, ◌≡◌,
  ◌⊎◌, refl, sym, ap, ◌∙◌, subst, arith, Text, text_eq, text_eq_iff, member, member-append,
  if◌then◌else◌, Bool-cases, inl, inr,
}

-- The member or item at a segment, null when there is none.
abbrev pub child : Segment → Json → Json
child (key k) (object fs) = lookup k fs
child (index i) (array vs) = nth vs i
child _ _ = null

abbrev pub within : ℕ → Items → Bool
within i no_items = false
within zero (item v vs) = true
within (suc i) (item v vs) = within i vs

abbrev pub has_segment : Segment → Json → Bool
has_segment (key k) (object fs) = member k (field_keys fs)
has_segment (index i) (array vs) = within i vs
has_segment _ _ = false

-- Two values that have no members in common to compare.
abbrev pub is_leaf : Json → Json → Bool
is_leaf (object fs) (object gs) = false
is_leaf (array vs) (array ws) = false
is_leaf _ _ = true

abbrev pub IsUnmoved : Equality → Json → Json → Type 0
IsUnmoved eq (array vs) (array ws) = is_same_set (set_membership eq (items vs) (items ws)) ≡ true
IsUnmoved eq _ _ = ⊥

-- The path goes into a set attribute that has the same members on both sides.
abbrev pub IsInUnmovedSet : Equality → List Text → PlanPath → Json → Json → Type 0
IsInUnmovedSet eq sets (key k ∷ p) before after =
    (member k sets ≡ true) × IsUnmoved eq (child (key k) before) (child (key k) after)
IsInUnmovedSet eq sets _ before after = ⊥

-- The values on the way to the path are there on one side at least and are not equal, and those at its
-- end are not equal and neither two objects nor two arrays.
abbrev pub Differs : Equality → PlanPath → Json → Json → Type 0
Differs eq [] before after = (eq.json_equal before after ≡ false) × (is_leaf before after ≡ true)
Differs eq (s ∷ p) before after =
    (eq.json_equal before after ≡ false)
    × ((has_segment s before || has_segment s after) ≡ true)
    × Differs eq p (child s before) (child s after)

-- The paths hold the beginning of a path, behind another.
pub record Reports (here p : PlanPath) (paths : List PlanPath) : Type 0 where
  pub begin : PlanPath
  pub end : PlanPath
  pub shape : p ≡ begin ++ end
  pub reported : has_path (here ++ begin) paths ≡ true

pub has_path_self : (here : PlanPath) → has_path here (here ∷ []) ≡ true
unfolding has_path
has_path_self here = rw ((path_eq_iff here here).1 refl) refl

here-Reports : (here p : PlanPath) → Reports here p (here ∷ [])
here-Reports here p = record {
  begin = [];
  end = p;
  shape = refl;
  reported = ap (λ q. has_path q (here ∷ [])) (append-nil here) ∙ has_path_self here;
}

step-Reports :
    (here p : PlanPath) (s : Segment) (paths : List PlanPath)
    → Reports (append_path here s) p paths
    → Reports here (s ∷ p) paths
step-Reports here p s paths r = record {
  begin = s ∷ r.begin;
  end = r.end;
  shape = ap (s ∷◌) r.shape;
  reported = ap (λ q. has_path q paths) (sym (append_assoc here (s ∷ []) r.begin)) ∙ r.reported;
}

left-Reports :
    (here p : PlanPath) (xs ys : List PlanPath) → Reports here p xs → Reports here p (xs ++ ys)
left-Reports here p xs ys r = record {
  begin = r.begin;
  end = r.end;
  shape = r.shape;
  reported = has_path-append (here ++ r.begin) xs ys ∙ rw r.reported refl;
}

right-Reports :
    (here p : PlanPath) (xs ys : List PlanPath) → Reports here p ys → Reports here p (xs ++ ys)
right-Reports here p xs ys r = record {
  begin = r.begin;
  end = r.end;
  shape = r.shape;
  reported = ground (arith, has_path-append (here ++ r.begin) xs ys, r.reported);
}

concat_map-Reports :
    (here p : PlanPath) (f : Text → List PlanPath) (k : Text) (ks : List Text)
    → member k ks ≡ true
    → Reports here p (f k)
    → Reports here p (concat_map f ks)
unfolding member
concat_map-Reports here p f k [] m r = absurd (ground (arith, m))
concat_map-Reports here p f k (j ∷ js) m r = elim (Bool-cases (text_eq k j)) [
  | inl same ↦
      left-Reports here p (f j) (concat_map f js)
        (subst (λ x. Reports here p (f x)) ((text_eq_iff k j).0 same) r)
  | inr other ↦
      right-Reports here p (f j) (concat_map f js)
        (concat_map-Reports here p f k js (ground (arith, m, other)) r)
]

pub member-all_keys :
    (k : Text) (fs gs : Fields)
    → member k (all_keys fs gs) ≡ (member k (field_keys fs) || member k (field_keys gs))
unfolding all_keys sorted
member-all_keys k fs gs =
    member-sorted k (key_set (field_keys fs ++ field_keys gs))
    ∙ member-key_set k (field_keys fs ++ field_keys gs)
    ∙ member-append k (field_keys fs) (field_keys gs)

pub lookup_here :
    (name k : Text) (v : Json) (rest : Fields)
    → text_eq name k ≡ true
    → lookup name (field k v rest) ≡ v
unfolding lookup
lookup_here name k v rest same = rw (same, lookup) refl

pub lookup_later :
    (name k : Text) (v : Json) (rest : Fields)
    → text_eq name k ≡ false
    → lookup name (field k v rest) ≡ lookup name rest
unfolding lookup
lookup_later name k v rest other = rw (other, lookup) refl

nth-first : (ws : Items) → nth ws 0 ≡ first ws
unfolding nth
nth-first no_items = refl
nth-first (item w ws) = refl

nth-others : (ws : Items) (j : ℕ) → nth ws (suc j) ≡ nth (others ws) j
unfolding nth
nth-others no_items j = refl
nth-others (item w ws) j = refl

within-others : (ws : Items) (j : ℕ) → within (suc j) ws ≡ within j (others ws)
within-others no_items j = refl
within-others (item w ws) j = refl

module _ (eq : Equality) where
  Differs-now : (p : PlanPath) (v w : Json) → Differs eq p v w → eq.json_equal v w ≡ false
  Differs-now [] v w h = h.0
  Differs-now (s ∷ p) v w h = h.0

  leaf-Reports :
      (v w : Json) (here p : PlanPath)
      → eq.json_equal v w ≡ false
      → Reports here p (leaf_paths eq v w here)
  leaf-Reports v w here p h = rw h (here-Reports here p)

  set_attribute-Reports :
      (walk : List PlanPath) (v w : Json) (here p : PlanPath)
      → Reports here p walk
      → Reports here p (set_attribute_paths eq walk v w here) ⊎ IsUnmoved eq v w
  unfolding set_attribute_paths
  set_attribute-Reports walk (array vs) (array ws) here p r =
      elim (Bool-cases (is_same_set (set_membership eq (items vs) (items ws)))) [
        | inl same ↦ inr same
        | inr moved ↦ inl (rw moved (here-Reports here p))
      ]
  set_attribute-Reports walk v w here p r = inl r

  null-Reports :
      (ws : Items) (i j m : ℕ) (here p : PlanPath)
      → m ≡ i + j
      → within j ws ≡ true
      → Differs eq p null (nth ws j)
      → Reports here (index m ∷ p) (null_paths eq ws i here)
  unfolding null_paths nth
  null-Reports no_items i j m here p e k h = absurd (ground (arith, k))
  null-Reports (item w ws) i zero m here p e k h =
      left-Reports here (index m ∷ p) _ (null_paths eq ws (suc i) here) (
        subst (λ n. Reports here (index m ∷ p) (leaf_paths eq null w (append_path here (index n))))
          (omega (arith, e))
          (step-Reports here p (index m) _
            (leaf-Reports null w (append_path here (index m)) p (Differs-now p null w h))))
  null-Reports (item w ws) i (suc j) m here p e k h =
      right-Reports here (index m ∷ p) _ (null_paths eq ws (suc i) here)
        (null-Reports ws (suc i) j m here p (omega (arith, e)) k h)

  -- A key of two objects that differ there.
  keys-Reports :
      (walk : Text → List PlanPath) (sets : List Text) (fs gs : Fields) (here p : PlanPath)
      (k : Text)
      → (member k (field_keys fs) || member k (field_keys gs)) ≡ true
      → Reports (append_path here (key k)) p (walk k)
      → Reports here (key k ∷ p) (
          concat_map
            (λ k.
              if member k sets
              then set_attribute_paths eq
                  (walk k)
                  (lookup k fs)
                  (lookup k gs)
                  (append_path here (key k))
              else walk k)
            (all_keys fs gs))
        ⊎ IsInUnmovedSet eq sets (key k ∷ p) (object fs) (object gs)
  keys-Reports walk sets fs gs here p k there r =
      let f = λ (k : Text).
        if member k sets
        then set_attribute_paths eq (walk k) (lookup k fs) (lookup k gs) (append_path here (key k))
        else walk k in
      let there = member-all_keys k fs gs ∙ there in
      let at_key = λ (found : Reports (append_path here (key k)) p (f k)).
        step-Reports here p (key k) (concat_map f (all_keys fs gs))
          (concat_map-Reports (append_path here (key k)) p f k (all_keys fs gs) there found) in
      elim (Bool-cases (member k sets)) [
        | inr out ↦ inl (at_key (rw out r))
        | inl in_set ↦
            elim (set_attribute-Reports (walk k) (lookup k fs) (lookup k gs)
              (append_path here (key k)) p r) [
                | inl found ↦ inl (at_key (rw in_set found))
                | inr same ↦ inr (in_set, same)
              ]
      ]

  -- Without set attributes nothing is left out.
  only_reported :
      (here p : PlanPath) (v w : Json) (paths : List PlanPath)
      → Reports here p paths ⊎ IsInUnmovedSet eq [] p v w
      → Reports here p paths
  unfolding member
  only_reported here p v w paths (inl r) = r
  only_reported here (key k ∷ p) v w paths (inr h) = absurd (ground (arith, h.0))
  only_reported here [] v w paths (inr h) = absurd h
  only_reported here (index i ∷ p) v w paths (inr h) = absurd h

  mutual
    unfolding diff_paths_at nth lookup

    pub diff_paths_at-Reports :
        (v w : Json) (here p : PlanPath) (sets : List Text)
        → Differs eq p v w
        → Reports here p (diff_paths_at eq v w here sets) ⊎ IsInUnmovedSet eq sets p v w
    diff_paths_at-Reports (object fs) (object gs) here [] sets h = absurd (ground (arith, h.1))
    diff_paths_at-Reports (object fs) (object gs) here (index i ∷ p) sets h =
        absurd (ground (arith, h.1))
    diff_paths_at-Reports (object fs) (object gs) here (key k ∷ p) sets h =
        let walks = member_paths-Reports fs k (lookup k gs) (append_path here (key k)) p h.2 in
        rw h.0 (
          keys-Reports (λ k. member_paths eq k fs (lookup k gs) (append_path here (key k))) sets fs
            gs here p k h.1 walks)
    diff_paths_at-Reports (array vs) (array ws) here [] sets h = absurd (ground (arith, h.1))
    diff_paths_at-Reports (array vs) (array ws) here (key k ∷ p) sets h =
        absurd (ground (arith, h.1))
    diff_paths_at-Reports (array vs) (array ws) here (index i ∷ p) sets h =
        inl (rw h.0 (array_paths-Reports vs ws 0 i i here p (omega arith) h.1 h.2))
    diff_paths_at-Reports v w here p sets h = inl (leaf-Reports v w here p (Differs-now p v w h))

    member_paths-Reports :
        (fs : Fields) (name : Text) (w : Json) (here p : PlanPath)
        → Differs eq p (lookup name fs) w
        → Reports here p (member_paths eq name fs w here)
    member_paths-Reports no_fields name w here p h =
        leaf-Reports null w here p (Differs-now p null w h)
    member_paths-Reports (field k v rest) name w here p h = elim (Bool-cases (text_eq name k)) [
      | inl same ↦ rw same (
          only_reported here p v w (diff_paths_at eq v w here []) (
            diff_paths_at-Reports v w here p []
              (subst (λ x. Differs eq p x w) (lookup_here name k v rest same) h)))
      | inr other ↦ rw other (
          member_paths-Reports rest name w here p
            (subst (λ x. Differs eq p x w) (lookup_later name k v rest other) h))
    ]

    array_paths-Reports :
        (vs ws : Items) (i j m : ℕ) (here p : PlanPath)
        → m ≡ i + j
        → (within j vs || within j ws) ≡ true
        → Differs eq p (nth vs j) (nth ws j)
        → Reports here (index m ∷ p) (array_paths eq vs ws i here)
    array_paths-Reports no_items ws i j m here p e k h = null-Reports ws i j m here p e k h
    array_paths-Reports (item v vs) ws i zero m here p e k h =
        let there = append_path here (index m) in
        let found =
          diff_paths_at-Reports v (first ws) there p []
            (subst (λ x. Differs eq p v x) (nth-first ws) h) in
        left-Reports here (index m ∷ p) _ (array_paths eq vs (others ws) (suc i) here) (
          subst
            (λ n.
              Reports here (index m ∷ p)
                (diff_paths_at eq v (first ws) (append_path here (index n)) []))
            (omega (arith, e))
            (step-Reports here p (index m) (diff_paths_at eq v (first ws) there [])
              (only_reported there p v (first ws) (diff_paths_at eq v (first ws) there []) found)))
    array_paths-Reports (item v vs) ws i (suc j) m here p e k h =
        right-Reports here (index m ∷ p) _ (array_paths eq vs (others ws) (suc i) here) (
          array_paths-Reports vs (others ws) (suc i) j m here p (omega (arith, e))
            (sym (ap (λ b. within j vs || b) (within-others ws j)) ∙ k)
            (subst (λ x. Differs eq p (nth vs j) x) (nth-others ws j) h))
