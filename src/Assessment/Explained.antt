-- ===== src/Assessment/Explained.antt =====
-- go/internal/assessment/eval.go: what `explainedBySetEquality` answers, on the members of two objects.
use infrawright_dev.Assessment.Balance.{count, multiset_delta-count}
use infrawright_dev.Assessment.Diff.{is_same_set}
use infrawright_dev.Assessment.Differs.{member-all_keys}
use infrawright_dev.Assessment.Sets.{set_membership}
use infrawright_dev.Assessment.Update.{
  Change, same_members, explain_keys, explain_objects, explained_by_set_equality,
}
use infrawright_dev.Canonjson.Values.{
  Json, array, object, Items, items, Fields, lookup, field_keys, all_keys, Equality,
}
use infrawright_dev.Base.{
  Bool, true, false, ◌||◌, ◌∙◌, List, [], ◌∷◌, ◌≡◌, ◌⊎◌, arith, inl, inr, sym, subst, or-eq-true,
  Text, text_eq, text_eq_iff, member, Bool-cases,
}

module _ (eq : Equality) (p : Json → Bool)
    (respects : (a b : Json) → eq.exactly_equal a b ≡ true → p a ≡ p b) where
  -- Two arrays have as many members with the property.
  unfoldable pub SameCount : Json → Json → Type 0
  SameCount (array vs) (array ws) = count p (items vs) ≡ count p (items ws)
  SameCount _ _ = ⊥

  -- The values at a key are exactly equal, or they are those of a set with the same members.
  unfoldable pub IsKept : Fields → Fields → List Text → Text → Type 0
  IsKept fs gs sets k =
      (eq.exactly_equal (lookup k fs) (lookup k gs) ≡ true)
      ⊎ ((member k sets ≡ true) × SameCount (lookup k fs) (lookup k gs))

  same_set-count :
      (vs ws : Items)
      → is_same_set (set_membership eq (items vs) (items ws)) ≡ true
      → count p (items vs) ≡ count p (items ws)
  unfolding set_membership count
  same_set-count vs ws h =
      ground (arith, h, multiset_delta-count eq p respects (items vs) (items ws))

  same_members-SameCount : (v w : Json) → same_members eq v w ≡ true → SameCount v w
  unfolding same_members SameCount
  same_members-SameCount (array vs) (array ws) h = same_set-count vs ws h
  same_members-SameCount _ _ h = cc

  -- A round of the loop over the keys, and the state in which the loop goes on.
  explain_keys-round :
      (fs gs : Fields) (sets js : List Text) (j : Text) (explained : Bool)
      → explain_keys eq fs gs sets (j ∷ js) explained ≡ true
      → IsKept fs gs sets j × ((b : Bool) × (explain_keys eq fs gs sets js b ≡ true))
  unfolding explain_keys IsKept
  explain_keys-round fs gs sets js j explained h =
      elim (Bool-cases (eq.exactly_equal (lookup j fs) (lookup j gs))) [
        | inl same ↦ (inl same, (explained, ground (arith, h, same)))
        | inr moved ↦ elim (Bool-cases (member j sets)) [
          | inr other ↦
              let clash : false ≡ true = ground (arith, h, moved, other) in absurd (apart clash)
          | inl is_set ↦ elim (Bool-cases (same_members eq (lookup j fs) (lookup j gs))) [
            | inl members ↦ (
              inr (is_set, same_members-SameCount (lookup j fs) (lookup j gs) members),
              (true, ground (arith, h, moved, is_set, members)),
            )
            | inr differ ↦
                let clash : false ≡ true = ground (arith, h, moved, is_set, differ) in
                absurd (apart clash)
          ]
        ]
      ]
    where
      apart : ¬ (false ≡ true)
      apart e = cc

  explain_keys-IsKept :
      (fs gs : Fields) (sets keys : List Text) (explained : Bool)
      → explain_keys eq fs gs sets keys explained ≡ true
      → (k : Text) → member k keys ≡ true
      → IsKept fs gs sets k
  unfolding member
  explain_keys-IsKept fs gs sets [] explained h k m = cc
  explain_keys-IsKept fs gs sets (j ∷ js) explained h k m =
      let round = explain_keys-round fs gs sets js j explained h in
      elim (or-eq-true (text_eq k j) (member k js) m) [
        | inl this ↦ subst (IsKept fs gs sets) (sym ((text_eq_iff k j).0 this)) round.0
        | inr later ↦ explain_keys-IsKept fs gs sets js round.1.0 round.1.1 k later
      ]

  -- Both sides are objects, and each key of one of them is kept.
  abbrev pub OnlyReordered : Json → Json → List Text → Type 0
  OnlyReordered (object fs) (object gs) sets =
      (k : Text)
      → (member k (field_keys fs) || member k (field_keys gs)) ≡ true
      → IsKept fs gs sets k
  OnlyReordered _ _ sets = ⊥

  objects-OnlyReordered :
      (v w : Json) (sets : List Text) → explain_objects eq v w sets ≡ true → OnlyReordered v w sets
  unfolding explain_objects
  objects-OnlyReordered (object fs) (object gs) sets h =
      λ k m. explain_keys-IsKept fs gs sets (all_keys fs gs) false h k (member-all_keys k fs gs ∙ m)
  objects-OnlyReordered _ _ sets h = cc

  -- When set equality explains an update, the two sides are objects, and at each key of one of them
  -- the values are exactly equal, or the key is a set attribute whose two arrays have as many members
  -- with any property that exactly equal values share.
  pub explained_by_set_equality-OnlyReordered :
      (change : Change) (sets : List Text)
      → explained_by_set_equality eq change sets ≡ true
      → OnlyReordered change.before change.after sets
  unfolding explained_by_set_equality
  explained_by_set_equality-OnlyReordered change sets h =
      objects-OnlyReordered change.before change.after sets (ground (arith, h))
