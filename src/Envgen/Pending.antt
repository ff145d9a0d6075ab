-- ===== src/Envgen/Pending.antt =====
-- What the loop over the dependencies of a root does to the roots selected and pending.
use infrawright_dev.Envgen.Closure.{Closing, select_one, select}
use infrawright_dev.Refedges.Visited.{free}
use infrawright_dev.Refedges.SetMaps.{sorted, member-sorted}
use infrawright_dev.Base.Sorting.{length-stable_sort}
use infrawright_dev.Base.{
  ℕ, suc, ◌+◌, ◌<◌, true, false, not, ◌||◌, ◌&&◌, List, [], ◌∷◌, ◌++◌, ◌≡◌, refl, arith, length,
  length-append, Text, text_lt, is_distinct, text_eq, text_eq_iff, text_eq_refl, member,
  member-append,
}

select_one-selected :
    (d : Text) (c : Closing) (x : Text)
    → member x (select_one d c).selected ≡ (text_eq x d || member x c.selected)
unfolding select_one member
select_one-selected d c x = ground (arith, text_eq_iff x d)

select_one-pending :
    (d : Text) (c : Closing) (x : Text)
    → member x (select_one d c).pending
      ≡ (member x c.pending || (text_eq x d && not (member x c.selected)))
unfolding select_one member
select_one-pending d c x = ground (
  arith,
  text_eq_iff x d,
  member-sorted x (c.pending ++ d ∷ []),
  member-append x c.pending (d ∷ []),
)

pub select-selected :
    (ds : List Text) (c : Closing) (x : Text)
    → member x (select ds c).selected ≡ (member x ds || member x c.selected)
unfolding select member
select-selected [] c x = refl
select-selected (d ∷ ds) c x =
    ground (arith, select-selected ds (select_one d c) x, select_one-selected d c x)

pub select-pending :
    (ds : List Text) (c : Closing) (x : Text)
    → member x (select ds c).pending
      ≡ (member x c.pending || (member x ds && not (member x c.selected)))
unfolding select member
select-pending [] c x = ground arith
select-pending (d ∷ ds) c x = ground (
  arith,
  select-pending ds (select_one d c) x,
  select_one-pending d c x,
  select_one-selected d c x,
)

length-sorted : (xs : List Text) → length (sorted xs) ≡ length xs
unfolding sorted
length-sorted xs = length-stable_sort text_lt xs

free-cons_le : (set : List Text) (x : Text) (ns : List Text) → free (x ∷ set) ns < suc (free set ns)
unfolding free member
free-cons_le set x [] = omega arith
free-cons_le set x (n ∷ ns) = ground (arith, free-cons_le set x ns)

free-cons_lt :
    (set : List Text) (x : Text) (ns : List Text)
    → member x set ≡ false
    → member x ns ≡ true
    → free (x ∷ set) ns < free set ns
unfolding free member
free-cons_lt set x [] h k = cc
free-cons_lt set x (n ∷ ns) h k =
    ground
      (arith, free-cons_lt set x ns h, free-cons_le set x ns, text_eq_iff x n, text_eq_refl n, h, k)

unfoldable pub weight : List Text → Closing → ℕ
weight ns c = length c.pending + free c.selected ns

select_one-weight :
    (ns : List Text) (d : Text) (c : Closing)
    → member d ns ≡ true
    → weight ns (select_one d c) < suc (weight ns c)
unfolding select_one weight member
select_one-weight ns d c known = ground (
  arith,
  free-cons_lt c.selected d ns,
  length-sorted (c.pending ++ d ∷ []),
  length-append c.pending (d ∷ []),
  known,
)

pub select-weight :
    (ns ds : List Text) (c : Closing)
    → ((d : Text) → member d ds ≡ true → member d ns ≡ true)
    → weight ns (select ds c) < suc (weight ns c)
unfolding select member
select-weight ns [] c known = omega arith
select-weight ns (d ∷ ds) c known = ground (
  arith,
  select_one-weight ns d c (known d (ground (arith, text_eq_refl d))),
  select-weight ns ds (select_one d c) λ x m. known x (ground (arith, m)),
)

pub select-is_distinct :
    (ds : List Text) (c : Closing)
    → is_distinct c.selected ≡ true
    → is_distinct (select ds c).selected ≡ true
unfolding select select_one is_distinct
select-is_distinct [] c h = h
select-is_distinct (d ∷ ds) c h = select-is_distinct ds (select_one d c) (ground (arith, h))
