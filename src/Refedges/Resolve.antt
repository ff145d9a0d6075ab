-- ===== src/Refedges/Resolve.antt =====
-- go/internal/refedges/refedges.go: `Resolve`, with the parts of the deployment
-- (go/internal/deployment/deployment.go) and of the pack metadata (go/internal/metadata) that it
-- reads. A map that is only looked up is a function.
use infrawright_dev.Canonjson.Values.{
  Json, boolean, string, object, Fields, no_fields, field, lookup, field_keys,
}
use infrawright_dev.Refedges.Cycles.{Stop, cycle_path}
use infrawright_dev.Refedges.SetMaps.{SetMap, add_to_set, sorted}
use infrawright_dev.Base.Sorting.{stable_sort}
use infrawright_dev.Base.{
  Bool, true, false, not, ◌&&◌, Option, none, some, List, [], ◌∷◌, ◌++◌, map, if◌then◌else◌, Text,
  codes, text_eq, text_lt, member, Result, ok, err, ◌>>=◌,
}

-- An omitted cross_state_references is none.
pub record RootProviderConfig : Type 0 where
  pub cross_state_references : Option Bool

pub data ReferenceBindingMode : Type 0 where
  disabled : ReferenceBindingMode
  cross_state : ReferenceBindingMode

pub record Resource : Type 0 where
  pub provider : Text
  pub registry : Fields

pub record PackManifest : Type 0 where
  pub name : Text
  pub data_fields : Fields

pub record Options : Type 0 where
  pub provider_roots : Text → Option RootProviderConfig
  pub active : List Text
  pub manifests : List PackManifest
  pub resources : Text → Option Resource
  pub resource_roots : Text → Option Text

pub record Edge : Type 0 where
  pub field_name : Text
  pub referrer : Text
  pub referrer_root : Text
  pub referent : Text
  pub referent_root : Text

pub record Topology : Type 0 where
  pub edges : List Edge
  pub dependencies_by_root : SetMap
  pub outputs_by_root : SetMap

pub data ResolveError : Type 0 where
  data_referent_referrer : Text → ResolveError
  underived_referrer : Text → ResolveError
  rootless_referrer : Text → ResolveError
  bad_referent : Text → Text → Text → ResolveError
  rootless_referent : Text → Text → Text → ResolveError
  cycle : Stop → ResolveError

-- The references of one resource type.
pub record References : Type 0 where
  pub resource_type : Text
  pub declared : Fields

-- `target[key] = value`
unfoldable pub set_field : Text → Json → Fields → Fields
set_field key value no_fields = field key value no_fields
set_field key value (field k v rest) =
    if text_eq key k then field k value rest else field k v (set_field key value rest)

unfoldable pub merge_fields : Fields → Fields → Fields
unfolding set_field
merge_fields no_fields target = target
merge_fields (field key value rest) target = merge_fields rest (set_field key value target)

unfoldable pub merge_resource : Text → Fields → List References → List References
unfolding merge_fields
merge_resource key new [] =
    record { resource_type = key; declared = merge_fields new no_fields } ∷ []
merge_resource key new (r ∷ rs) =
    if text_eq key r.resource_type
    then record r { declared = merge_fields new r.declared } ∷ rs
    else r ∷ merge_resource key new rs

unfoldable pub merge_manifest : Fields → List References → List References
unfolding merge_resource
merge_manifest no_fields merged = merged
merge_manifest (field key (object new) rest) merged =
    merge_manifest rest (merge_resource key new merged)
merge_manifest (field key _ rest) merged = merge_manifest rest merged

unfoldable pub merge_references : List Text → List PackManifest → List References → List References
unfolding member lookup merge_manifest
merge_references active [] merged = merged
merge_references active (m ∷ ms) merged = merge_references active ms (
    if member m.name active
    then elim (lookup (codes "references") m.data_fields) [
      | object references ↦ merge_manifest references merged
      | _ ↦ merged
    ]
    else merged)

unfoldable pub merged_references : Options → List References
unfolding merge_references
merged_references options = merge_references options.active options.manifests []

-- `references[referrer]`, empty when it is missing.
unfoldable pub fields_of : Text → List References → Fields
fields_of key [] = no_fields
fields_of key (r ∷ rs) = if text_eq key r.resource_type then r.declared else fields_of key rs

unfoldable pub binding_mode : Options → Text → ReferenceBindingMode
binding_mode options provider = elim (options.provider_roots provider) [
  | some config ↦ elim config.cross_state_references [
    | some enabled ↦ if enabled then cross_state else disabled
    | none ↦ cross_state
  ]
  | none ↦ cross_state
]

-- `value, _ := registry[key].(bool)`
unfoldable pub is_flagged : Text → Fields → Bool
unfolding lookup
is_flagged key registry = elim (lookup key registry) [ boolean b ↦ b | _ ↦ false ]

unfoldable pub is_json_record : Json → Bool
is_json_record (object _) = true
is_json_record _ = false

unfoldable pub generated_non_derived : Options → Text → Bool
unfolding is_flagged is_json_record lookup
generated_non_derived options resource_type = elim (options.resources resource_type) [
  | none ↦ false
  | some resource ↦
      is_flagged (codes "generate") resource.registry
      && not (is_json_record (lookup (codes "derive") resource.registry))
]

unfoldable pub data_referent : Options → Text → Bool
unfolding is_flagged
data_referent options resource_type = elim (options.resources resource_type) [
  | none ↦ false
  | some resource ↦ is_flagged (codes "data_referent") resource.registry
]

-- The three statements that record an edge.
unfoldable pub add_edge : Edge → Topology → Topology
unfolding add_to_set
add_edge e t = record {
  edges = t.edges ++ e ∷ [];
  dependencies_by_root = add_to_set t.dependencies_by_root e.referrer_root e.referent_root;
  outputs_by_root = add_to_set t.outputs_by_root e.referent_root e.referent;
}

-- The referent that a reference names, if it is an object with a string there.
unfoldable pub referent_of : Json → Option Text
unfolding lookup
referent_of (object specification) = elim (lookup (codes "referent") specification) [
  | string referent ↦ some referent
  | _ ↦ none
]
referent_of _ = none

module _ (options : Options) where
  -- A reference whose referent is known, in the root of its referrer.
  unfoldable pub resolve_referent :
      Text → Text → Text → Text → Topology → Result ResolveError Topology
  unfolding generated_non_derived data_referent add_edge
  resolve_referent referrer referrer_root key referent t =
      if not (generated_non_derived options referent) && not (data_referent options referent)
      then err (bad_referent referrer key referent)
      else elim (options.resource_roots referent) [
        | none ↦ err (rootless_referent referrer key referent)
        | some referent_root ↦
            if text_eq referrer_root referent_root
            then ok t
            else ok (
                add_edge
                  (record {
                    field_name = key;
                    referrer = referrer;
                    referrer_root = referrer_root;
                    referent = referent;
                    referent_root = referent_root;
                  })
                  t)
      ]

  -- The loop over the fields of a referrer.
  unfoldable pub resolve_fields :
      Text → Text → Fields → List Text → Topology → Result ResolveError Topology
  unfolding referent_of resolve_referent lookup
  resolve_fields referrer root declared [] t = ok t
  resolve_fields referrer root declared (key ∷ keys) t = elim (referent_of (lookup key declared)) [
    | none ↦ resolve_fields referrer root declared keys t
    | some referent ↦
        resolve_referent referrer root key referent t >>= resolve_fields referrer root declared keys
  ]

  -- One referrer.
  unfoldable pub resolve_referrer : List References → Text → Topology → Result ResolveError Topology
  unfolding data_referent binding_mode generated_non_derived resolve_fields fields_of sorted
  resolve_referrer references referrer t = elim (options.resources referrer) [
    | none ↦ ok t
    | some resource ↦
        if data_referent options referrer
        then err (data_referent_referrer referrer)
        else elim (binding_mode options resource.provider) [
          | disabled ↦ ok t
          | cross_state ↦
              if not (generated_non_derived options referrer)
              then err (underived_referrer referrer)
              else elim (options.resource_roots referrer) [
                | none ↦ err (rootless_referrer referrer)
                | some root ↦
                    let declared = fields_of referrer references in
                    resolve_fields referrer root declared (sorted (field_keys declared)) t
              ]
        ]
  ]

  unfoldable pub resolve_referrers :
      List References → List Text → Topology → Result ResolveError Topology
  unfolding resolve_referrer
  resolve_referrers references [] t = ok t
  resolve_referrers references (referrer ∷ rest) t =
      resolve_referrer references referrer t >>= resolve_referrers references rest

-- The order of `sortEdges`.
unfoldable pub edge_lt : Edge → Edge → Bool
unfolding text_lt text_eq
edge_lt a b =
    if text_eq a.referrer b.referrer
    then (if text_eq a.field_name b.field_name
        then text_lt a.referent b.referent
        else text_lt a.field_name b.field_name)
    else text_lt a.referrer b.referrer

unfoldable pub sort_edges : List Edge → List Edge
unfolding edge_lt
sort_edges = stable_sort edge_lt

abbrev pub no_edges : Topology
no_edges = record { edges = []; dependencies_by_root = []; outputs_by_root = [] }

unfoldable pub referrers : List References → List Text
unfolding sorted
referrers references = sorted (map (λ r. r.resource_type) references)

-- What follows the walk: the search for a cycle, and the sort.
unfoldable pub finish : Topology → Result ResolveError Topology
unfolding cycle_path sort_edges
finish t = elim (cycle_path t.dependencies_by_root) [
  | ok _ ↦ ok (record t { edges = sort_edges t.edges })
  | err stop ↦ err (cycle stop)
]

unfoldable pub resolve : Options → Result ResolveError Topology
unfolding merged_references referrers resolve_referrers finish
resolve options =
    let references = merged_references options in
    resolve_referrers options references (referrers references) no_edges >>= finish
