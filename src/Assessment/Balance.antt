-- ===== src/Assessment/Balance.antt =====
-- go/internal/assessment/eval.go: the members that `multisetDelta` counts.
use infrawright_dev.Base.{
  ℕ, ◌+◌, Bool, true, List, [], ◌∷◌, ◌≡◌, refl, ap, arith, Option-cases, inl, inr, if◌then◌else◌,
  some,
}
use infrawright_dev.Canonjson.Values.{Json, Equality}
use infrawright_dev.Assessment.Sets.{
  Marked, unmatched, left_over, mark_first, match_all, multiset_delta,
}

-- How many members have a property.
unfoldable pub count : (Json → Bool) → List Json → ℕ
count p [] = 0
count p (v ∷ vs) = (if p v then 1 else 0) + count p vs

module _ (eq : Equality) (p : Json → Bool)
    (respects : (a b : Json) → eq.exactly_equal a b ≡ true → p a ≡ p b) where
  count-left_over-mark_first :
      (after : Json) (ms : List Marked) {marked : List Marked}
      → mark_first eq after ms ≡ some marked
      → count p (left_over ms) ≡ (if p after then 1 else 0) + count p (left_over marked)
  unfolding mark_first left_over count
  count-left_over-mark_first after [] h = cc
  count-left_over-mark_first after (m ∷ ms) h = elim (Option-cases (mark_first eq after ms)) [
    | inl e ↦ ground (arith, h, e, respects m.value after)
    | inr (later, e) ↦ ground (
      arith,
      h,
      e,
      respects m.value after,
      count-left_over-mark_first after ms {marked = later} e,
    )
  ]

  count-match_all :
      (after : List Json) (ms : List Marked)
      → count p (left_over ms) + count p (match_all eq after ms).1
        ≡ count p after + count p (left_over (match_all eq after ms).0)
  unfolding match_all count
  count-match_all [] ms = omega arith
  count-match_all (v ∷ vs) ms = elim (Option-cases (mark_first eq v ms)) [
    | inl e ↦ rw (e, match_all) (omega (arith, count-match_all vs ms))
    | inr (marked, e) ↦
        rw (e, match_all)
          (omega (arith, count-match_all vs marked, count-left_over-mark_first v ms e))
  ]

  count-unmatched : (vs : List Json) → count p (left_over (unmatched vs)) ≡ count p vs
  unfolding left_over count
  count-unmatched [] = refl
  count-unmatched (v ∷ vs) = ap (λ n. (if p v then 1 else 0) + n) (count-unmatched vs)

  -- Of the members with a property that equal values share, the delta accounts for each: those before
  -- and those added are as many as those after and those removed.
  pub multiset_delta-count :
      (before after : List Json)
      → let delta = multiset_delta eq before after in
        count p before + count p delta.added ≡ count p after + count p delta.removed
  unfolding multiset_delta
  multiset_delta-count before after =
      omega (arith, count-match_all after (unmatched before), count-unmatched before)
