-- ===== src/Assessment/Marked.antt =====
-- go/internal/assessment/eval.go: `TruthyPaths`, against a description of the places that are true.
use infrawright_dev.Base.Sorting.{stable_sort, Any-stable_sort}
use infrawright_dev.Canonjson.Values.{
  Json, null, boolean, number, string, array, object, Items, no_items, item, Fields, no_fields,
  field, lookup, field_keys,
}
use infrawright_dev.Assessment.Paths.{
  Segment, key, index, PlanPath, append_path, has_path, nth, Found, found_lt, all_found,
  truthy_paths_at, truthy_fields, truthy_items,
}
use infrawright_dev.Assessment.Differs.{
  child, within, has_segment, has_path_self, lookup_here, lookup_later,
}
use infrawright_dev.Assessment.Reported.{has_path-append, has_path-left, has_path-right}
use infrawright_dev.Base.{
  ℕ, zero, suc, ◌+◌, Bool, true, false, List, [], ◌∷◌, ◌++◌, append_assoc, append-nil, ◌≡◌, refl,
  sym, ap, ◌∙◌, subst, arith, Text, text_eq, text_eq_iff, member, Any, Bool-cases, inl, inr,
}

abbrev pub IsTrue : Json → Type 0
IsTrue (boolean true) = Unit
IsTrue _ = ⊥

-- The path leads through members that are there to the value true.
abbrev pub IsMarked : PlanPath → Json → Type 0
IsMarked [] v = IsTrue v
IsMarked (s ∷ p) v = (has_segment s v ≡ true) × IsMarked p (child s v)

abbrev is_scalar : Json → Bool
is_scalar (object fs) = false
is_scalar (array vs) = false
is_scalar _ = true

has_segment-is_scalar : (s : Segment) (v : Json) → is_scalar v ≡ true → has_segment s v ≡ false
has_segment-is_scalar (key k) (object fs) h = absurd (ground (arith, h))
has_segment-is_scalar (key k) (array vs) h = refl
has_segment-is_scalar (key k) null h = refl
has_segment-is_scalar (key k) (boolean b) h = refl
has_segment-is_scalar (key k) (number t) h = refl
has_segment-is_scalar (key k) (string t) h = refl
has_segment-is_scalar (index i) (array vs) h = absurd (ground (arith, h))
has_segment-is_scalar (index i) (object fs) h = refl
has_segment-is_scalar (index i) null h = refl
has_segment-is_scalar (index i) (boolean b) h = refl
has_segment-is_scalar (index i) (number t) h = refl
has_segment-is_scalar (index i) (string t) h = refl

IsMarked-is_scalar :
    {G : Type 0} (s : Segment) (p : PlanPath) (v : Json)
    → is_scalar v ≡ true
    → IsMarked (s ∷ p) v
    → G
IsMarked-is_scalar s p v bare h = absurd (ground (arith, h.0, has_segment-is_scalar s v bare))

has_path-all_found :
    (p : PlanPath) (fs : List Found)
    → Any (λ f. has_path p f.paths ≡ true) fs
    → has_path p (all_found fs) ≡ true
has_path-all_found p [] h = absurd h
has_path-all_found p (f ∷ fs) (inl h) = has_path-append p f.paths (all_found fs) ∙ rw h refl
has_path-all_found p (f ∷ fs) (inr h) =
    ground (arith, has_path-append p f.paths (all_found fs), has_path-all_found p fs h)

-- The path behind one segment.
has_path_behind :
    (here p : PlanPath) (s : Segment) (paths : List PlanPath)
    → has_path (append_path here s ++ p) paths ≡ true
    → has_path (here ++ s ∷ p) paths ≡ true
has_path_behind here p s paths h =
    ap (λ q. has_path q paths) (sym (append_assoc here (s ∷ []) p)) ∙ h

-- The same for the walk of a member, whose segment is given by an equation.
truthy_behind :
    (v : Json) (here p : PlanPath) (s t : Segment)
    → s ≡ t
    → has_path (append_path here s ++ p) (truthy_paths_at v (append_path here s)) ≡ true
    → has_path (here ++ s ∷ p) (truthy_paths_at v (append_path here t)) ≡ true
truthy_behind v here p s t e h =
    subst (λ u. has_path (here ++ s ∷ p) (truthy_paths_at v (append_path here u)) ≡ true) e
      (has_path_behind here p s (truthy_paths_at v (append_path here s)) h)

no_member : (k : Text) → ¬ (member k [] ≡ true)
unfolding member
no_member k h = ground (arith, h)

member_behind :
    (k j : Text) (ks : List Text)
    → text_eq k j ≡ false
    → member k (j ∷ ks) ≡ true
    → member k ks ≡ true
unfolding member
member_behind k j ks other m = ground (arith, other, m)

mutual
  unfolding truthy_paths_at nth stable_sort

  pub has_path-truthy_paths_at :
      (v : Json) (here p : PlanPath)
      → IsMarked p v
      → has_path (here ++ p) (truthy_paths_at v here) ≡ true
  has_path-truthy_paths_at (boolean true) here [] h =
      ap (λ q. has_path q (here ∷ [])) (append-nil here) ∙ has_path_self here
  has_path-truthy_paths_at (object fs) here (key k ∷ p) h =
      has_path-all_found (here ++ key k ∷ p) (stable_sort found_lt (truthy_fields fs here)) (
        Any-stable_sort found_lt (λ f. has_path (here ++ key k ∷ p) f.paths ≡ true)
          (truthy_fields fs here) (truthy_fields-IsMarked fs k here p h.0 h.1))
  has_path-truthy_paths_at (array vs) here (index i ∷ p) h =
      has_path-truthy_items vs 0 i i here p (omega arith) h.0 h.1
  has_path-truthy_paths_at (object fs) here (index i ∷ p) h = absurd (ground (arith, h.0))
  has_path-truthy_paths_at (array vs) here (key k ∷ p) h = absurd (ground (arith, h.0))
  has_path-truthy_paths_at null here (s ∷ p) h = IsMarked-is_scalar s p null refl h
  has_path-truthy_paths_at (boolean b) here (s ∷ p) h = IsMarked-is_scalar s p (boolean b) refl h
  has_path-truthy_paths_at (number t) here (s ∷ p) h = IsMarked-is_scalar s p (number t) refl h
  has_path-truthy_paths_at (string t) here (s ∷ p) h = IsMarked-is_scalar s p (string t) refl h
  has_path-truthy_paths_at (object fs) here [] h = absurd h
  has_path-truthy_paths_at (array vs) here [] h = absurd h
  has_path-truthy_paths_at null here [] h = absurd h
  has_path-truthy_paths_at (boolean false) here [] h = absurd h
  has_path-truthy_paths_at (number t) here [] h = absurd h
  has_path-truthy_paths_at (string t) here [] h = absurd h

  truthy_fields-IsMarked :
      (fs : Fields) (k : Text) (here p : PlanPath)
      → member k (field_keys fs) ≡ true
      → IsMarked p (lookup k fs)
      → Any (λ f. has_path (here ++ key k ∷ p) f.paths ≡ true) (truthy_fields fs here)
  truthy_fields-IsMarked no_fields k here p m h = absurd (no_member k m)
  truthy_fields-IsMarked (field j v rest) k here p m h = elim (Bool-cases (text_eq k j)) [
    | inl same ↦ inl (
        truthy_behind v here p (key k) (key j) (ap key ((text_eq_iff k j).0 same)) (
          has_path-truthy_paths_at v (append_path here (key k)) p
            (subst (IsMarked p) (lookup_here k j v rest same) h)))
    | inr other ↦ inr (
        truthy_fields-IsMarked rest k here p (member_behind k j (field_keys rest) other m)
          (subst (IsMarked p) (lookup_later k j v rest other) h))
  ]

  has_path-truthy_items :
      (vs : Items) (i j m : ℕ) (here p : PlanPath)
      → m ≡ i + j
      → within j vs ≡ true
      → IsMarked p (nth vs j)
      → has_path (here ++ index m ∷ p) (truthy_items vs i here) ≡ true
  has_path-truthy_items no_items i j m here p e k h = absurd (ground (arith, k))
  has_path-truthy_items (item v vs) i zero m here p e k h =
      has_path-left (here ++ index m ∷ p) (truthy_paths_at v (append_path here (index i)))
        (truthy_items vs (suc i) here)
        (truthy_behind v here p (index m) (index i) (ap index (omega (arith, e)))
          (has_path-truthy_paths_at v (append_path here (index m)) p h))
  has_path-truthy_items (item v vs) i (suc j) m here p e k h =
      has_path-right (here ++ index m ∷ p) (truthy_paths_at v (append_path here (index i)))
        (truthy_items vs (suc i) here)
        (has_path-truthy_items vs (suc i) j m here p (omega (arith, e)) k h)
