-- ===== src/Refedges/Declared.antt =====
-- go/internal/refedges/refedges.go: `mergedReferences`, against a search for the last declaration of a field.
use infrawright_dev.Canonjson.Values.{
  Json, null, boolean, number, string, array, object, Fields, no_fields, field, lookup,
}
use infrawright_dev.Refedges.Resolve.{
  Options, PackManifest, References, Edge, set_field, merge_fields, merge_resource, merge_manifest,
  merge_references, merged_references, fields_of, referent_of, generated_non_derived, data_referent,
}
use infrawright_dev.Refedges.Qualified.{IsReferrer, IsQualified}
use infrawright_dev.Base.{
  Bool, true, false, ◌||◌, Option, none, some, List, [], ◌∷◌, ◌≡◌, ◌↔◌, refl, sym, ap, ◌∙◌, arith,
  if◌then◌else◌, Text, codes, text_eq, text_eq_iff, member, Bool-cases, inl, inr,
}

-- The first that is there.
abbrev pub prefer : Option Json → Option Json → Option Json
prefer (some v) other = some v
prefer none other = other

-- The value at a key, the last one when the list has several.
unfoldable pub last_value : Text → Fields → Option Json
last_value key no_fields = none
last_value key (field k v rest) =
    prefer (last_value key rest) (if text_eq key k then some v else none)

abbrev pub value_in : Text → Json → Option Json
value_in key (object declared) = last_value key declared
value_in key _ = none

-- What the references of a manifest say of a field of a resource type.
unfoldable pub declared_in : Text → Text → Fields → Option Json
declared_in referrer name no_fields = none
declared_in referrer name (field k v rest) =
    prefer (declared_in referrer name rest) (if text_eq referrer k then value_in name v else none)

abbrev pub manifest_declares : Text → Text → Json → Option Json
manifest_declares referrer name (object references) = declared_in referrer name references
manifest_declares referrer name _ = none

-- The declaration of the last manifest, in their order, that is active and has one.
unfoldable pub last_declared : List Text → List PackManifest → Text → Text → Option Json
last_declared active [] referrer name = none
last_declared active (m ∷ ms) referrer name = prefer (last_declared active ms referrer name) (
    if member m.name active
    then manifest_declares referrer name (lookup (codes "references") m.data_fields)
    else none)

-- The edge stands for the reference that the last active pack declares at its field, from a generated
-- resource of a provider with cross-state references to a known resource of another root.
pub record IsDeclaredEdge (options : Options) (e : Edge) : Type 0 where
  pub source : IsReferrer options e.referrer e.referrer_root
  pub declared :
      (v : Json) × (last_declared options.active options.manifests e.referrer e.field_name ≡ some v)
      × (referent_of v ≡ some e.referent)
  pub target : (generated_non_derived options e.referent || data_referent options e.referent) ≡ true
  pub placed : options.resource_roots e.referent ≡ some e.referent_root
  pub crosses : text_eq e.referrer_root e.referent_root ≡ false

prefer_assoc : (a b c : Option Json) → prefer (prefer a b) c ≡ prefer a (prefer b c)
prefer_assoc (some v) b c = refl
prefer_assoc none b c = refl

find_field : Text → Fields → Option Json
find_field key no_fields = none
find_field key (field k v rest) = if text_eq key k then some v else find_field key rest

abbrev or_null : Option Json → Json
or_null none = null
or_null (some v) = v

lookup-find_field : (key : Text) (fs : Fields) → lookup key fs ≡ or_null (find_field key fs)
unfolding lookup find_field
lookup-find_field key no_fields = refl
lookup-find_field key (field k v rest) = elim (Bool-cases (text_eq key k)) [
  | inl same ↦ rw (same, lookup, find_field) refl
  | inr other ↦ rw (other, lookup, find_field) (lookup-find_field key rest)
]

-- A name that is one of two different ones is not the other.
apart : (name k j : Text) → text_eq k j ≡ false → text_eq name k ≡ true → text_eq name j ≡ false
apart name k j h e = ap (λ x. text_eq x j) ((text_eq_iff name k).0 e) ∙ h

find_field-set_field :
    (key k : Text) (v : Json) (fs : Fields)
    → find_field key (set_field k v fs) ≡ (if text_eq key k then some v else find_field key fs)
unfolding find_field set_field
find_field-set_field key k v no_fields = refl
find_field-set_field key k v (field j w rest) =
    let later = find_field-set_field key k v rest in
    elim (Bool-cases (text_eq k j)) [
      | inl same ↦
          let names = (text_eq_iff k j).0 same in
          rw (same, set_field) (ground (arith, ap (text_eq key) names))
      | inr other ↦ rw (other, set_field) (ground (arith, later, apart key k j other))
    ]

find_field-merge_fields :
    (key : Text) (new fs : Fields)
    → find_field key (merge_fields new fs) ≡ prefer (last_value key new) (find_field key fs)
unfolding merge_fields last_value
find_field-merge_fields key no_fields fs = refl
find_field-merge_fields key (field k v rest) fs =
    find_field-merge_fields key rest (set_field k v fs)
    ∙ ap (prefer (last_value key rest)) (find_field-set_field key k v fs)
    ∙ step (last_value key rest) (text_eq key k)
  where
    step :
        (o : Option Json) (b : Bool)
        → prefer o (if b then some v else find_field key fs)
          ≡ prefer (prefer o (if b then some v else none)) (find_field key fs)
    step (some w) b = refl
    step none true = refl
    step none false = refl

fields_of-merge_resource :
    (referrer k : Text) (new : Fields) (rs : List References)
    → fields_of referrer (merge_resource k new rs) ≡ (
        if text_eq referrer k
        then merge_fields new (fields_of referrer rs)
        else fields_of referrer rs)
unfolding fields_of merge_resource
fields_of-merge_resource referrer k new [] = refl
fields_of-merge_resource referrer k new (r ∷ rs) =
    let later = fields_of-merge_resource referrer k new rs in
    elim (Bool-cases (text_eq k r.resource_type)) [
      | inl same ↦
          let names = (text_eq_iff k r.resource_type).0 same in
          rw (same, merge_resource) (ground (arith, ap (text_eq referrer) names))
      | inr other ↦
          rw (other, merge_resource) (ground (arith, later, apart referrer k r.resource_type other))
    ]

prefer-none : (o : Option Json) (b : Bool) → prefer o (if b then none else none) ≡ o
prefer-none (some v) b = refl
prefer-none none true = refl
prefer-none none false = refl

module _ (referrer name : Text) where
  -- What has been merged says this of the field.
  abbrev merged_value : List References → Option Json
  merged_value rs = find_field name (fields_of referrer rs)

  merged_value-merge_resource :
      (k : Text) (new : Fields) (rs : List References) (later : Option Json)
      → prefer later (merged_value (merge_resource k new rs))
        ≡ prefer
            (prefer later (if text_eq referrer k then last_value name new else none))
            (merged_value rs)
  merged_value-merge_resource k new rs later =
      ap (λ fs. prefer later (find_field name fs)) (fields_of-merge_resource referrer k new rs)
      ∙ elim (Bool-cases (text_eq referrer k)) [
        | inl same ↦ rw same (
            ap (prefer later) (find_field-merge_fields name new (fields_of referrer rs))
            ∙ sym (prefer_assoc later (last_value name new) (merged_value rs)))
        | inr other ↦ rw other (ap (λ o. prefer o (merged_value rs)) (sym (prefer-none later true)))
      ]

  merged_value-merge_manifest :
      (refs : Fields) (rs : List References)
      → merged_value (merge_manifest refs rs)
        ≡ prefer (declared_in referrer name refs) (merged_value rs)
  unfolding merge_manifest declared_in
  merged_value-merge_manifest no_fields rs = refl
  merged_value-merge_manifest (field k (object new) rest) rs =
      merged_value-merge_manifest rest (merge_resource k new rs)
      ∙ merged_value-merge_resource k new rs (declared_in referrer name rest)
  merged_value-merge_manifest (field k v rest) rs =
      merged_value-merge_manifest rest rs
      ∙ ap (λ o. prefer o (merged_value rs))
          (sym (prefer-none (declared_in referrer name rest) (text_eq referrer k)))

  -- The references of one manifest, if it is active.
  abbrev add_manifest : List Text → PackManifest → List References → List References
  add_manifest active m rs =
      if member m.name active
      then elim (lookup (codes "references") m.data_fields) [
        | object references ↦ merge_manifest references rs
        | _ ↦ rs
      ]
      else rs

  merged_value-add_manifest :
      (active : List Text) (m : PackManifest) (rs : List References)
      → merged_value (add_manifest active m rs)
        ≡ prefer
            (if member m.name active
              then manifest_declares referrer name (lookup (codes "references") m.data_fields)
              else none)
            (merged_value rs)
  merged_value-add_manifest active m rs = elim (Bool-cases (member m.name active)) [
    | inr off ↦ rw off refl
    | inl on ↦ rw on (by_value (lookup (codes "references") m.data_fields))
  ]
    where
      by_value :
          (v : Json)
          → merged_value (elim v [ object references ↦ merge_manifest references rs | _ ↦ rs ])
            ≡ prefer (manifest_declares referrer name v) (merged_value rs)
      by_value (object references) = merged_value-merge_manifest references rs
      by_value null = refl
      by_value (boolean b) = refl
      by_value (number t) = refl
      by_value (string t) = refl
      by_value (array vs) = refl

  merged_value-merge_references :
      (active : List Text) (ms : List PackManifest) (rs : List References)
      → merged_value (merge_references active ms rs)
        ≡ prefer (last_declared active ms referrer name) (merged_value rs)
  unfolding merge_references last_declared
  merged_value-merge_references active [] rs = refl
  merged_value-merge_references active (m ∷ ms) rs =
      merged_value-merge_references active ms (add_manifest active m rs)
      ∙ ap (prefer (last_declared active ms referrer name)) (merged_value-add_manifest active m rs)
      ∙ sym (prefer_assoc (last_declared active ms referrer name) _ (merged_value rs))

  lookup-merged_references :
      (options : Options)
      → lookup name (fields_of referrer (merged_references options))
        ≡ or_null (last_declared options.active options.manifests referrer name)
  unfolding merged_references fields_of find_field
  lookup-merged_references options =
      lookup-find_field name (fields_of referrer (merged_references options))
      ∙ ap or_null (
          merged_value-merge_references options.active options.manifests []
          ∙ prefer-none (last_declared options.active options.manifests referrer name) true)

-- A declaration that names a referent is there.
referent_of-or_null :
    (o : Option Json) (referent : Text)
    → referent_of (or_null o) ≡ some referent
    → (v : Json) × (o ≡ some v) × (referent_of v ≡ some referent)
unfolding referent_of
referent_of-or_null none referent h = cc
referent_of-or_null (some v) referent h = (v, refl, h)

pub IsQualified-IsDeclaredEdge_iff :
    (options : Options) (e : Edge)
    → IsQualified options (merged_references options) e ↔ IsDeclaredEdge options e
IsQualified-IsDeclaredEdge_iff options e =
    let merged = lookup-merged_references e.referrer e.field_name options in
    let found = last_declared options.active options.manifests e.referrer e.field_name in
    (
      λ q. record {
        source = q.source;
        declared = referent_of-or_null found e.referent (sym (ap referent_of merged) ∙ q.declared);
        target = q.target;
        placed = q.placed;
        crosses = q.crosses;
      },
      λ d. record {
        source = d.source;
        declared =
            ap referent_of merged ∙ ap (λ o. referent_of (or_null o)) d.declared.1 ∙ d.declared.2;
        target = d.target;
        placed = d.placed;
        crosses = d.crosses;
      },
    )
