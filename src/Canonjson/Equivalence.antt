-- ===== src/Canonjson/Equivalence.antt =====
-- go/internal/canonjson/equality.go: laws of `TerraformJSONExactlyEqual`.
use infrawright_dev.Canonjson.Alike.{
  Alike, AlikeItems, AlikeFields, terraform_json_exactly_equal-Alike_iff,
}
use infrawright_dev.Canonjson.Equality.{terraform_json_exactly_equal}
use infrawright_dev.Canonjson.Values.{
  Json, null, boolean, number, string, array, object, Items, no_items, item, Fields, no_fields,
  field, lookup, field_keys,
}
use infrawright_dev.Refedges.SetMaps.{sorted, member-sorted}
use infrawright_dev.Base.Sorting.{stable_sort}
use infrawright_dev.Base.{
  true, false, ◌≡◌, refl, sym, ◌∙◌, ap, subst, arith, inl, inr, if◌then◌else◌, Text, text_eq,
  text_eq_iff, text_eq_refl, text_lt, member, is_distinct, Bool-cases,
}

-- The objects of a value have each key once, as those of a Go map do.
unfoldable mutual
  unfolding is_distinct

  pub IsMapped : Json → Type 0
  IsMapped (array vs) = ItemsMapped vs
  IsMapped (object fs) = (is_distinct (field_keys fs) ≡ true) × FieldsMapped fs
  IsMapped _ = Unit

  pub ItemsMapped : Items → Type 0
  ItemsMapped no_items = Unit
  ItemsMapped (item v vs) = IsMapped v × ItemsMapped vs

  pub FieldsMapped : Fields → Type 0
  FieldsMapped no_fields = Unit
  FieldsMapped (field k v rest) = IsMapped v × FieldsMapped rest

-- At a key of the first object, the values are alike.
AlikeFields-lookup :
    (fs gs : Fields) (k : Text)
    → AlikeFields fs gs
    → member k (field_keys fs) ≡ true
    → Alike (lookup k fs) (lookup k gs)
unfolding AlikeFields lookup member
AlikeFields-lookup no_fields gs k h m = cc
AlikeFields-lookup (field j v rest) gs k h m = elim (Bool-cases (text_eq k j)) [
  | inl same ↦ rw same (subst (λ z. Alike v (lookup z gs)) (sym ((text_eq_iff k j).0 same)) h.0)
  | inr other ↦ rw other (AlikeFields-lookup rest gs k h.1 (ground (arith, m, other)))
]

-- An object whose values are alike at each key, with each key once.
lookup-AlikeFields :
    (fs gs : Fields)
    → is_distinct (field_keys fs) ≡ true
    → ((k : Text) → member k (field_keys fs) ≡ true → Alike (lookup k fs) (lookup k gs))
    → AlikeFields fs gs
unfolding AlikeFields lookup member is_distinct
lookup-AlikeFields no_fields gs d h = tt
lookup-AlikeFields (field j v rest) gs d h = (
  subst (λ b. Alike (if b then v else lookup j rest) (lookup j gs)) (text_eq_refl j)
      (h j (ground (arith, text_eq_refl j))),
  lookup-AlikeFields rest gs (ground (arith, d)) (λ k m.
      subst (λ b. Alike (if b then v else lookup k rest) (lookup k gs)) (other_key k m)
        (h k (ground (arith, m)))),
)
  where
    other_key : (k : Text) → member k (field_keys rest) ≡ true → text_eq k j ≡ false
    other_key k m = ground (arith, d, m, text_eq_iff k j)

same_members :
    (fs gs : Fields)
    → stable_sort text_lt (field_keys fs) ≡ stable_sort text_lt (field_keys gs)
    → (k : Text) → member k (field_keys fs) ≡ member k (field_keys gs)
unfolding sorted
same_members fs gs h k =
    sym (member-sorted k (field_keys fs)) ∙ ap (member k) h ∙ member-sorted k (field_keys gs)

mutual
  unfolding Alike member

  pub Alike-trans : (l m r : Json) → Alike l m → Alike m r → Alike l r
  Alike-trans null null r h k = k
  Alike-trans (boolean a) (boolean b) (boolean c) h k = h ∙ k
  Alike-trans (number a) (number b) (number c) h k = h ∙ k
  Alike-trans (string a) (string b) (string c) h k = h ∙ k
  Alike-trans (array vs) (array ws) (array us) h k = items_trans vs ws us h k
  Alike-trans (object fs) (object gs) (object hs) h k =
      (h.0 ∙ k.0, fields_trans fs gs hs h.1 k.1 (λ j m. sym (same_members fs gs h.0 j) ∙ m))
  Alike-trans (boolean a) (boolean b) _ h k = absurd k
  Alike-trans (number a) (number b) _ h k = absurd k
  Alike-trans (string a) (string b) _ h k = absurd k
  Alike-trans (array vs) (array ws) _ h k = absurd k
  Alike-trans (object fs) (object gs) _ h k = absurd k
  Alike-trans _ _ _ h k = absurd h

  items_trans : (vs ws us : Items) → AlikeItems vs ws → AlikeItems ws us → AlikeItems vs us
  items_trans no_items no_items us h k = k
  items_trans (item v vs) (item w ws) (item u us) h k =
      (Alike-trans v w u h.0 k.0, items_trans vs ws us h.1 k.1)
  items_trans (item v vs) (item w ws) _ h k = absurd k
  items_trans _ _ _ h k = absurd h

  fields_trans :
      (fs gs hs : Fields)
      → AlikeFields fs gs
      → AlikeFields gs hs
      → ((k : Text) → member k (field_keys fs) ≡ true → member k (field_keys gs) ≡ true)
      → AlikeFields fs hs
  fields_trans no_fields gs hs h k keys = tt
  fields_trans (field j v rest) gs hs h k keys = (
    Alike-trans v (lookup j gs) (lookup j hs) h.0
        (AlikeFields-lookup gs hs j k (keys j (ground (arith, text_eq_refl j)))),
    fields_trans rest gs hs h.1 k (λ i m. keys i (ground (arith, m))),
  )

mutual
  unfolding Alike IsMapped lookup member

  pub Alike-refl : (v : Json) → IsMapped v → Alike v v
  Alike-refl null m = tt
  Alike-refl (boolean a) m = refl
  Alike-refl (number a) m = refl
  Alike-refl (string a) m = refl
  Alike-refl (array vs) m = items_refl vs m
  Alike-refl (object fs) m = (refl, lookup-AlikeFields fs fs m.0 (λ k h. lookup_refl fs m.1 k h))

  items_refl : (vs : Items) → ItemsMapped vs → AlikeItems vs vs
  items_refl no_items m = tt
  items_refl (item v vs) m = (Alike-refl v m.0, items_refl vs m.1)

  lookup_refl :
      (fs : Fields)
      → FieldsMapped fs
      → (k : Text) → member k (field_keys fs) ≡ true
      → Alike (lookup k fs) (lookup k fs)
  lookup_refl no_fields m k h = cc
  lookup_refl (field j v rest) m k h = elim (Bool-cases (text_eq k j)) [
    | inl same ↦ rw same (Alike-refl v m.0)
    | inr other ↦ rw other (lookup_refl rest m.1 k (ground (arith, h, other)))
  ]

lookup-IsMapped : (fs : Fields) (k : Text) → FieldsMapped fs → IsMapped (lookup k fs)
unfolding IsMapped lookup
lookup-IsMapped no_fields k m = tt
lookup-IsMapped (field j v rest) k m = elim (Bool-cases (text_eq k j)) [
  | inl same ↦ rw same m.0
  | inr other ↦ rw other (lookup-IsMapped rest k m.1)
]

mutual
  unfolding Alike IsMapped lookup member

  pub Alike-sym : (l r : Json) → IsMapped r → Alike l r → Alike r l
  Alike-sym null null m h = tt
  Alike-sym (boolean a) (boolean b) m h = sym h
  Alike-sym (number a) (number b) m h = sym h
  Alike-sym (string a) (string b) m h = sym h
  Alike-sym (array vs) (array ws) m h = items-sym vs ws m h
  Alike-sym (object fs) (object gs) m h = (
    sym h.0,
    lookup-AlikeFields gs fs m.0
        (λ k listed. lookup-sym fs gs m.1 h.1 k (same_members fs gs h.0 k ∙ listed)),
  )
  Alike-sym _ _ m h = absurd h

  items-sym : (vs ws : Items) → ItemsMapped ws → AlikeItems vs ws → AlikeItems ws vs
  items-sym no_items no_items m h = tt
  items-sym (item v vs) (item w ws) m h = (Alike-sym v w m.0 h.0, items-sym vs ws m.1 h.1)
  items-sym _ _ m h = absurd h

  lookup-sym :
      (fs gs : Fields)
      → FieldsMapped gs
      → AlikeFields fs gs
      → (k : Text) → member k (field_keys fs) ≡ true
      → Alike (lookup k gs) (lookup k fs)
  lookup-sym no_fields gs m h k listed = cc
  lookup-sym (field j v rest) gs m h k listed = elim (Bool-cases (text_eq k j)) [
    | inl same ↦ rw same (
        subst (λ z. Alike (lookup z gs) v) (sym ((text_eq_iff k j).0 same))
          (Alike-sym v (lookup j gs) (lookup-IsMapped gs j m) h.0))
    | inr other ↦ rw other (lookup-sym rest gs m h.1 k (ground (arith, listed, other)))
  ]

-- TerraformJSONExactlyEqual is reflexive and symmetric, on values whose objects have each key once.
pub terraform_json_exactly_equal_comm :
    (l r : Json)
    → IsMapped l
    → IsMapped r
    → (terraform_json_exactly_equal l l ≡ true)
      × (terraform_json_exactly_equal l r ≡ terraform_json_exactly_equal r l)
terraform_json_exactly_equal_comm l r m n = (
  (terraform_json_exactly_equal-Alike_iff l l).1 (Alike-refl l m),
  ground (
    arith,
    terraform_json_exactly_equal-Alike_iff l r,
    terraform_json_exactly_equal-Alike_iff r l,
    Alike-sym l r n,
    Alike-sym r l m,
  ),
)

-- TerraformJSONExactlyEqual is transitive.
pub terraform_json_exactly_equal_trans :
    (l m r : Json)
    → terraform_json_exactly_equal l m ≡ true
    → terraform_json_exactly_equal m r ≡ true
    → terraform_json_exactly_equal l r ≡ true
terraform_json_exactly_equal_trans l m r h k = (terraform_json_exactly_equal-Alike_iff l r).1 (
    Alike-trans l m r ((terraform_json_exactly_equal-Alike_iff l m).0 h)
      ((terraform_json_exactly_equal-Alike_iff m r).0 k))
