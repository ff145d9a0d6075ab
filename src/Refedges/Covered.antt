-- ===== src/Refedges/Covered.antt =====
-- go/internal/refedges/refedges.go: the edges that the walk of `Resolve` meets.
use infrawright_dev.Canonjson.Values.{Fields, no_fields, field, lookup, field_keys}
use infrawright_dev.Refedges.Qualified.{
  IsQualified, Extends, same, more, Holds, Holds-bind, resolve_fields-Extends,
  resolve_referrer-Extends, resolve_referent-Extends, resolve_referrers-Extends,
}
use infrawright_dev.Refedges.Resolve.{
  Options, Edge, Topology, References, ResolveError, fields_of, generated_non_derived,
  data_referent, add_edge, referent_of, resolve_referent, resolve_fields, resolve_referrer,
  resolve_referrers, referrers,
}
use infrawright_dev.Refedges.SetMaps.{sorted, member-sorted}
use infrawright_dev.Base.{
  true, false, not, ◌&&◌, some, List, [], ◌∷◌, map, ◌≡◌, refl, subst, ◌∙◌, arith, Text, text_eq,
  text_eq_iff, member, Any, Any-append_left, Any-append_right, Result, ok, err, Bool-cases,
  Option-cases, inl, inr,
}

abbrev pub HasEdge : Edge → Topology → Type 0
HasEdge e t = Any (λ x. x ≡ e) t.edges

module _ (options : Options) (references : List References) where
  Extends-HasEdge :
      {t u : Topology} (e : Edge) → Extends options references t u → HasEdge e t → HasEdge e u
  unfolding add_edge
  Extends-HasEdge e same h = h
  Extends-HasEdge e (more {u = u} {e = other} k q) h =
      Any-append_left (λ x. x ≡ e) u.edges (other ∷ []) (Extends-HasEdge e k h)

  Holds-map :
      (P Q : Topology → Type 0) (m : Result ResolveError Topology)
      → ((t : Topology) → P t → Q t)
      → Holds options references P m
      → Holds options references Q m
  Holds-map P Q (ok t) k h = k t h
  Holds-map P Q (err e) k h = h

  resolve_referent-HasEdge :
      (e : Edge) (t : Topology)
      → IsQualified options references e
      → Holds options references
          (HasEdge e)
          (resolve_referent options e.referrer e.referrer_root e.field_name e.referent t)
  unfolding resolve_referent add_edge
  resolve_referent-HasEdge e t q =
      rw (good, q.placed, q.crosses, resolve_referent)
        (Any-append_right (λ x. x ≡ e) t.edges (e ∷ []) (inl refl))
    where
      good :
          (not (generated_non_derived options e.referent) && not (data_referent options e.referent))
          ≡ false
      good = ground (arith, q.target)

  -- The edge stays in the topology while the walk goes on.
  resolve_fields-HasEdge_before :
      (e : Edge) (keys : List Text) (t : Topology)
      → IsQualified options references e
      → HasEdge e t
      → Holds options references (HasEdge e) (
          resolve_fields options e.referrer e.referrer_root
            (fields_of e.referrer references)
            keys
            t)
  resolve_fields-HasEdge_before e keys t q h =
      Holds-map (Extends options references t) (HasEdge e) _ (λ u k. Extends-HasEdge e k h)
        (resolve_fields-Extends options references e.referrer e.referrer_root keys t q.source)

  resolve_referrers-HasEdge_before :
      (e : Edge) (names : List Text) (t : Topology)
      → HasEdge e t
      → Holds options references (HasEdge e) (resolve_referrers options references names t)
  resolve_referrers-HasEdge_before e names t h =
      Holds-map (Extends options references t) (HasEdge e) _ (λ u k. Extends-HasEdge e k h)
        (resolve_referrers-Extends options references names t)

  resolve_field-HasEdge :
      (e : Edge) (keys : List Text) (t : Topology)
      → IsQualified options references e
      → Holds options references (HasEdge e) (
          resolve_fields options e.referrer e.referrer_root
            (fields_of e.referrer references)
            (e.field_name ∷ keys)
            t)
  unfolding resolve_fields
  resolve_field-HasEdge e keys t q =
      rw (q.declared, resolve_fields)
        (Holds-bind options references (HasEdge e) (HasEdge e)
          (resolve_referent options e.referrer e.referrer_root e.field_name e.referent t) _
          (resolve_referent-HasEdge e t q) (λ u h. resolve_fields-HasEdge_before e keys u q h))

  resolve_fields-HasEdge :
      (e : Edge)
      → IsQualified options references e
      → (keys : List Text) (t : Topology) → member e.field_name keys ≡ true
      → Holds options references (HasEdge e) (
          resolve_fields options e.referrer e.referrer_root
            (fields_of e.referrer references)
            keys
            t)
  unfolding resolve_fields member
  resolve_fields-HasEdge e q [] t m = cc
  resolve_fields-HasEdge e q (key ∷ keys) t m = elim (Bool-cases (text_eq e.field_name key)) [
    | inl this ↦
        subst
          (λ k. Holds options references (HasEdge e) (
            resolve_fields options e.referrer e.referrer_root (fields_of e.referrer references)
              (k ∷ keys) t))
          ((text_eq_iff e.field_name key).0 this) (resolve_field-HasEdge e keys t q)
    | inr other ↦ elim (Option-cases (referent_of (lookup key (fields_of e.referrer references)))) [
      | inl nothing ↦
          rw (nothing, resolve_fields)
            (resolve_fields-HasEdge e q keys t (ground (arith, m, other)))
      | inr (referent, d) ↦
          rw (d, resolve_fields)
            (Holds-bind options references (Extends options references t) (HasEdge e)
              (resolve_referent options e.referrer e.referrer_root key referent t) _
              (resolve_referent-Extends options references e.referrer e.referrer_root key referent t
                q.source d)
              (λ u h. resolve_fields-HasEdge e q keys u (ground (arith, m, other))))
    ]
  ]

  -- A field that has a value is a key.
  lookup-declared :
      (key : Text) (declared : Fields) (referent : Text)
      → referent_of (lookup key declared) ≡ some referent
      → member key (field_keys declared) ≡ true
  unfolding lookup member referent_of
  lookup-declared key no_fields referent h = cc
  lookup-declared key (field k v rest) referent h =
      ground (arith, lookup-declared key rest referent, h)

  fields_of-declared :
      (referrer key : Text) (rs : List References) (referent : Text)
      → referent_of (lookup key (fields_of referrer rs)) ≡ some referent
      → member referrer (map (λ r. r.resource_type) rs) ≡ true
  unfolding fields_of lookup member referent_of
  fields_of-declared referrer key [] referent h = cc
  fields_of-declared referrer key (r ∷ rs) referent h =
      ground (arith, fields_of-declared referrer key rs referent, h)

  resolve_referrer-HasEdge :
      (e : Edge) (t : Topology)
      → IsQualified options references e
      → Holds options references (HasEdge e) (resolve_referrer options references e.referrer t)
  unfolding resolve_referrer
  resolve_referrer-HasEdge e t q =
      rw
        (
          q.source.known.1, q.source.not_data, q.source.known.2, q.source.generated,
          q.source.placed, resolve_referrer,
        )
        (resolve_fields-HasEdge e q (sorted (field_keys (fields_of e.referrer references))) t (
          member-sorted e.field_name (field_keys (fields_of e.referrer references))
          ∙ lookup-declared e.field_name (fields_of e.referrer references) e.referent q.declared))

  resolve_referrers-HasEdge :
      (e : Edge)
      → IsQualified options references e
      → (names : List Text) (t : Topology) → member e.referrer names ≡ true
      → Holds options references (HasEdge e) (resolve_referrers options references names t)
  unfolding resolve_referrers member
  resolve_referrers-HasEdge e q [] t m = cc
  resolve_referrers-HasEdge e q (name ∷ names) t m = elim (Bool-cases (text_eq e.referrer name)) [
    | inl this ↦
        Holds-bind options references (HasEdge e) (HasEdge e)
          (resolve_referrer options references name t) _
          (subst
            (λ n. Holds options references (HasEdge e) (resolve_referrer options references n t))
            ((text_eq_iff e.referrer name).0 this) (resolve_referrer-HasEdge e t q))
          (λ u h. resolve_referrers-HasEdge_before e names u h)
    | inr other ↦
        Holds-bind options references (Extends options references t) (HasEdge e)
          (resolve_referrer options references name t) _
          (resolve_referrer-Extends options references name t)
          (λ u h. resolve_referrers-HasEdge e q names u (ground (arith, m, other)))
  ]

  -- The walk over the referrers records each edge that is qualified.
  pub referrers-HasEdge :
      (e : Edge) (t : Topology)
      → IsQualified options references e
      → Holds options references
          (HasEdge e)
          (resolve_referrers options references (referrers references) t)
  unfolding referrers
  referrers-HasEdge e t q = resolve_referrers-HasEdge e q (referrers references) t (
      member-sorted e.referrer (map (λ r. r.resource_type) references)
      ∙ fields_of-declared e.referrer e.field_name references e.referent q.declared)
