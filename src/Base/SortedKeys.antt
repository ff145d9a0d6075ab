-- ===== src/Base/SortedKeys.antt =====
-- The keys of a sorted list are those of the list.
use infrawright_dev.Base.Sorting.{insert_sorted, stable_sort}
use infrawright_dev.Base.{
  Bool, not, ◌&&◌, ◌||◌, List, [], ◌∷◌, map, ◌≡◌, refl, ap, ◌∙◌, arith, Text, text_eq, text_eq_comm,
  member, is_distinct,
}

module _ {ℓ} {A : Type ℓ} (lt : A → A → Bool) (key : A → Text) where
  member-insert_sorted :
      (k : Text) (x : A) (xs : List A)
      → member k (map key (insert_sorted lt x xs)) ≡ (text_eq k (key x) || member k (map key xs))
  unfolding member insert_sorted
  member-insert_sorted k x [] = refl
  member-insert_sorted k x (y ∷ ys) = ground (arith, member-insert_sorted k x ys)

  is_distinct-insert_sorted :
      (x : A) (xs : List A)
      → is_distinct (map key (insert_sorted lt x xs))
        ≡ (not (member (key x) (map key xs)) && is_distinct (map key xs))
  unfolding is_distinct insert_sorted
  is_distinct-insert_sorted x [] = refl
  is_distinct-insert_sorted x (y ∷ ys) = ground (
    arith,
    is_distinct-insert_sorted x ys,
    member-insert_sorted (key y) x ys,
    text_eq_comm (key x) (key y),
  )

  pub member-stable_sort :
      (k : Text) (xs : List A) → member k (map key (stable_sort lt xs)) ≡ member k (map key xs)
  unfolding stable_sort member
  member-stable_sort k [] = refl
  member-stable_sort k (x ∷ xs) =
      member-insert_sorted k x (stable_sort lt xs)
      ∙ ap (λ b. text_eq k (key x) || b) (member-stable_sort k xs)

  pub is_distinct-stable_sort :
      (xs : List A) → is_distinct (map key (stable_sort lt xs)) ≡ is_distinct (map key xs)
  unfolding stable_sort is_distinct
  is_distinct-stable_sort [] = refl
  is_distinct-stable_sort (x ∷ xs) = ground (
    arith,
    is_distinct-insert_sorted x (stable_sort lt xs),
    member-stable_sort (key x) xs,
    is_distinct-stable_sort xs,
  )
