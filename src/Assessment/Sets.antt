-- ===== src/Assessment/Sets.antt =====
-- go/internal/assessment/eval.go: membership of sets, `setMembership` and `multisetDelta`.
use infrawright_dev.Base.{
  Bool, true, false, not, ◌&&◌, ◌||◌, List, [], ◌∷◌, if◌then◌else◌, Option, none, some,
}
use infrawright_dev.Canonjson.Values.{Json, null, Equality}

-- A member of `before` with its entry of `matched`.
pub record Marked : Type 0 where
  pub matched : Bool
  pub value : Json

abbrev pub unmatched : List Json → List Marked
unmatched [] = []
unmatched (v ∷ vs) = record { matched = false; value = v } ∷ unmatched vs

-- `removed`: what is left unmatched.
unfoldable pub left_over : List Marked → List Json
left_over [] = []
left_over (m ∷ ms) = let rest = left_over ms in if m.matched then rest else m.value ∷ rest

has_null : List Json → Bool
has_null [] = false
has_null (null ∷ vs) = true
has_null (_ ∷ vs) = has_null vs

pub record Delta : Type 0 where
  pub added : List Json
  pub removed : List Json

pub record Membership : Type 0 where
  pub delta : Delta
  pub determinate : Bool

module _ (eq : Equality) where
  -- The inner loop: mark the first member that is not matched and equals the value.
  unfoldable pub mark_first : Json → List Marked → Option (List Marked)
  mark_first after [] = none
  mark_first after (m ∷ ms) =
      let later = mark_first after ms in
      if not m.matched && eq.exactly_equal m.value after
      then some (record m { matched = true } ∷ ms)
      else elim later [ some marked ↦ some (m ∷ marked) | none ↦ none ]

  -- The outer loop: the marks at its end, and `added`.
  unfoldable pub match_all : List Json → List Marked → List Marked × List Json
  unfolding mark_first
  match_all [] ms = (ms, [])
  match_all (after ∷ rest) ms = elim (mark_first after ms) [
    | some marked ↦ match_all rest marked
    | none ↦ let (marked, added) = match_all rest ms in (marked, after ∷ added)
  ]

  unfoldable pub multiset_delta : List Json → List Json → Delta
  unfolding match_all left_over
  multiset_delta before after =
      let (marked, added) = match_all after (unmatched before) in
      record { added = added; removed = left_over marked }

  unfoldable pub set_membership : List Json → List Json → Membership
  unfolding has_null
  set_membership before after =
      if has_null before || has_null after
      then record { delta = record { added = []; removed = [] }; determinate = false }
      else record { delta = multiset_delta before after; determinate = true }
