-- ===== src/Base/Sorting.antt =====
-- A stable sort by a Boolean order, as `sort.SliceStable` computes it.
use mathlib.Core.List.Perm
use mathlib.Core.List.{Perm}
use infrawright_dev.Base.{
  Bool, true, false, List, [], ◌∷◌, ◌≡◌, refl, ap, ◌∙◌, arith, if◌then◌else◌, Bool-cases, inl, inr,
  suc, length, All, Any, ◌⊎◌,
}

module _ {ℓ} {A : Type ℓ} (lt : A → A → Bool) where
  unfoldable pub insert_sorted : A → List A → List A
  insert_sorted x [] = x ∷ []
  insert_sorted x (y ∷ ys) = if lt y x then y ∷ insert_sorted x ys else x ∷ y ∷ ys

  unfoldable pub stable_sort : List A → List A
  unfolding insert_sorted
  stable_sort [] = []
  stable_sort (x ∷ xs) = insert_sorted x (stable_sort xs)

  -- No element stands directly before a smaller one.
  abbrev pub IsSorted : List A → Type 0
  IsSorted [] = Unit
  IsSorted (x ∷ []) = Unit
  IsSorted (x ∷ y ∷ ys) = (lt y x ≡ false) × IsSorted (y ∷ ys)

  insert_sorted-head : (x : A) (ys : List A) → IsSorted (x ∷ ys) → insert_sorted x ys ≡ x ∷ ys
  unfolding insert_sorted
  insert_sorted-head x [] h = refl
  insert_sorted-head x (y ∷ ys) h = rw h.0

  IsSorted-tail : (x : A) (ys : List A) → IsSorted (x ∷ ys) → IsSorted ys
  IsSorted-tail x [] h = tt
  IsSorted-tail x (y ∷ ys) h = h.1

  -- Sorting a sorted list changes nothing.
  pub stable_sort-IsSorted_self : (xs : List A) → IsSorted xs → stable_sort xs ≡ xs
  unfolding stable_sort
  stable_sort-IsSorted_self [] h = refl
  stable_sort-IsSorted_self (x ∷ xs) h =
      ap (insert_sorted x) (stable_sort-IsSorted_self xs (IsSorted-tail x xs h))
      ∙ insert_sorted-head x xs h

  module _ (asymm : (a b : A) → lt a b ≡ true → lt b a ≡ false) where
    insert_sorted-IsSorted : (x : A) (ys : List A) → IsSorted ys → IsSorted (insert_sorted x ys)
    unfolding insert_sorted
    insert_sorted-IsSorted x [] h = tt
    insert_sorted-IsSorted x (y ∷ []) h = ground (arith, asymm y x)
    insert_sorted-IsSorted x (y ∷ z ∷ ys) h =
        ground (arith, asymm y x, asymm z x, insert_sorted-IsSorted x (z ∷ ys))

    pub stable_sort-IsSorted : (xs : List A) → IsSorted (stable_sort xs)
    unfolding stable_sort
    stable_sort-IsSorted [] = tt
    stable_sort-IsSorted (x ∷ xs) =
        insert_sorted-IsSorted x (stable_sort xs) (stable_sort-IsSorted xs)

  insert_sorted-perm : (x : A) (ys : List A) → Perm (insert_sorted x ys) (x ∷ ys)
  unfolding insert_sorted
  insert_sorted-perm x [] = Perm.rfl
  insert_sorted-perm x (y ∷ ys) = elim (Bool-cases (lt y x)) [
    | inl after ↦ rw after (Perm.trans (Perm.cons y (insert_sorted-perm x ys)) (Perm.swap x y ys))
    | inr before ↦ rw before Perm.rfl
  ]

  -- Sorting keeps the elements, each as often as it stood in the list.
  pub stable_sort-perm : (xs : List A) → Perm (stable_sort xs) xs
  unfolding stable_sort
  stable_sort-perm [] = Perm.rfl
  stable_sort-perm (x ∷ xs) =
      Perm.trans (insert_sorted-perm x (stable_sort xs)) (Perm.cons x (stable_sort-perm xs))

  length-insert_sorted : (x : A) (ys : List A) → length (insert_sorted x ys) ≡ suc (length ys)
  unfolding insert_sorted
  length-insert_sorted x [] = refl
  length-insert_sorted x (y ∷ ys) = ground (arith, length-insert_sorted x ys)

  pub length-stable_sort : (xs : List A) → length (stable_sort xs) ≡ length xs
  unfolding stable_sort
  length-stable_sort [] = refl
  length-stable_sort (x ∷ xs) =
      length-insert_sorted x (stable_sort xs) ∙ ap suc (length-stable_sort xs)

  module _ {κ} (P : A → Type κ) where
    All-insert_sorted : (x : A) (ys : List A) → P x → All P ys → All P (insert_sorted x ys)
    unfolding insert_sorted
    All-insert_sorted x [] px h = (px, h)
    All-insert_sorted x (y ∷ ys) px h = elim (Bool-cases (lt y x)) [
      | inl after ↦ rw after (h.0, All-insert_sorted x ys px h.1)
      | inr before ↦ rw before (px, h)
    ]

    pub All-stable_sort : (xs : List A) → All P xs → All P (stable_sort xs)
    unfolding stable_sort
    All-stable_sort [] h = h
    All-stable_sort (x ∷ xs) h = All-insert_sorted x (stable_sort xs) h.0 (All-stable_sort xs h.1)

  module _ (P : A → Type 0) where
    swap-Any :
        (x y : A) (ys zs : List A)
        → (P x ⊎ Any P ys → Any P zs)
        → P x ⊎ (P y ⊎ Any P ys)
        → P y ⊎ Any P zs
    swap-Any x y ys zs f (inl h) = inr (f (inl h))
    swap-Any x y ys zs f (inr (inl h)) = inl h
    swap-Any x y ys zs f (inr (inr h)) = inr (f (inr h))

    Any-insert_sorted : (x : A) (ys : List A) → P x ⊎ Any P ys → Any P (insert_sorted x ys)
    unfolding insert_sorted
    Any-insert_sorted x [] h = h
    Any-insert_sorted x (y ∷ ys) h = elim (Bool-cases (lt y x)) [
      | inl after ↦ rw after (swap-Any x y ys (insert_sorted x ys) (Any-insert_sorted x ys) h)
      | inr before ↦ rw before h
    ]

    pub Any-stable_sort : (xs : List A) → Any P xs → Any P (stable_sort xs)
    unfolding stable_sort
    Any-stable_sort [] h = h
    Any-stable_sort (x ∷ xs) (inl h) = Any-insert_sorted x (stable_sort xs) (inl h)
    Any-stable_sort (x ∷ xs) (inr h) =
        Any-insert_sorted x (stable_sort xs) (inr (Any-stable_sort xs h))
