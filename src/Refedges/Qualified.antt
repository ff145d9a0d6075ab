-- ===== src/Refedges/Qualified.antt =====
-- Which edges `Resolve` records.
use infrawright_dev.Canonjson.Values.{lookup, field_keys}
use infrawright_dev.Refedges.Resolve.{
  Options, Resource, Edge, Topology, References, ReferenceBindingMode, cross_state, disabled,
  ResolveError, cycle, fields_of, binding_mode, generated_non_derived, data_referent, add_edge,
  referent_of, resolve_referent, resolve_fields, resolve_referrer, resolve_referrers,
}
use infrawright_dev.Refedges.SetMaps.{sorted}
use infrawright_dev.Base.{
  true, false, not, ◌&&◌, ◌||◌, some, List, [], ◌∷◌, ◌≡◌, ◌⊎◌, refl, arith, Text, text_eq, Result,
  ok, err, ◌>>=◌, Bool-cases, Option-cases, inl, inr,
}

module _ (options : Options) where
  -- A resource that may refer to others, in its root.
  pub record IsReferrer (referrer root : Text) : Type 0 where
    pub known :
        (r : Resource) × (options.resources referrer ≡ some r)
        × (binding_mode options r.provider ≡ cross_state)
    pub generated : generated_non_derived options referrer ≡ true
    pub not_data : data_referent options referrer ≡ false
    pub placed : options.resource_roots referrer ≡ some root

module _ (options : Options) (references : List References) where
  -- The edge stands for a reference that is declared and leads to another root.
  pub record IsQualified (e : Edge) : Type 0 where
    pub source : IsReferrer options e.referrer e.referrer_root
    pub declared :
        referent_of (lookup e.field_name (fields_of e.referrer references)) ≡ some e.referent
    pub target :
        (generated_non_derived options e.referent || data_referent options e.referent) ≡ true
    pub placed : options.resource_roots e.referent ≡ some e.referent_root
    pub crosses : text_eq e.referrer_root e.referent_root ≡ false

  -- A topology comes from another by edges that are qualified.
  pub data Extends (t : Topology) : Topology → Type 0 where
    same : Extends t t
    more : {u : Topology} {e : Edge} → Extends t u → IsQualified e → Extends t (add_edge e u)

  pub Extends-trans : {t u v : Topology} → Extends t u → Extends u v → Extends t v
  Extends-trans h same = h
  Extends-trans h (more k q) = more (Extends-trans h k) q

  -- The walk does not look for a cycle.
  abbrev pub IsWalkError : ResolveError → Type 0
  IsWalkError (cycle _) = ⊥
  IsWalkError _ = Unit

  -- An error of the walk, or a topology with the property.
  abbrev pub Holds : (Topology → Type 0) → Result ResolveError Topology → Type 0
  Holds P (ok t) = P t
  Holds P (err e) = IsWalkError e

  pub Holds-bind :
      (P Q : Topology → Type 0) (m : Result ResolveError Topology)
      (f : Topology → Result ResolveError Topology)
      → Holds P m
      → ((t : Topology) → P t → Holds Q (f t))
      → Holds Q (m >>= f)
  Holds-bind P Q (ok t) f h k = k t h
  Holds-bind P Q (err e) f h k = h

  pub Holds-trans :
      {t u : Topology} (m : Result ResolveError Topology)
      → Extends t u
      → Holds (Extends u) m
      → Holds (Extends t) m
  Holds-trans (ok v) h k = Extends-trans h k
  Holds-trans (err e) h k = k

  pub resolve_referent-Extends :
      (referrer root key referent : Text) (t : Topology)
      → IsReferrer options referrer root
      → referent_of (lookup key (fields_of referrer references)) ≡ some referent
      → Holds (Extends t) (resolve_referent options referrer root key referent t)
  unfolding resolve_referent
  resolve_referent-Extends referrer root key referent t r d =
      elim (Bool-cases
        (not (generated_non_derived options referent) && not (data_referent options referent))) [
          | inl bad ↦ rw (bad, resolve_referent) tt
          | inr good ↦ elim (Option-cases (options.resource_roots referent)) [
            | inl rootless ↦ rw (good, rootless, resolve_referent) tt
            | inr (referent_root, placed) ↦ elim (Bool-cases (text_eq root referent_root)) [
              | inl here ↦ rw (good, placed, here, resolve_referent) same
              | inr there ↦
                  rw (good, placed, there, resolve_referent)
                    (more same (record {
                      source = r;
                      declared = d;
                      target = ground (arith, good);
                      placed = placed;
                      crosses = there;
                    }))
            ]
          ]
        ]

  pub resolve_fields-Extends :
      (referrer root : Text) (keys : List Text) (t : Topology)
      → IsReferrer options referrer root
      → Holds
          (Extends t)
          (resolve_fields options referrer root (fields_of referrer references) keys t)
  unfolding resolve_fields
  resolve_fields-Extends referrer root [] t r = same
  resolve_fields-Extends referrer root (key ∷ keys) t r =
      elim (Option-cases (referent_of (lookup key (fields_of referrer references)))) [
        | inl nothing ↦ rw (nothing, resolve_fields) (resolve_fields-Extends referrer root keys t r)
        | inr (referent, d) ↦
            rw (d, resolve_fields)
              (Holds-bind (Extends t) (Extends t)
                (resolve_referent options referrer root key referent t) _
                (resolve_referent-Extends referrer root key referent t r d)
                (λ u h.
                  Holds-trans
                    (resolve_fields options referrer root (fields_of referrer references) keys u) h
                    (resolve_fields-Extends referrer root keys u r)))
      ]

  Mode-cases : (m : ReferenceBindingMode) → (m ≡ cross_state) ⊎ (m ≡ disabled)
  Mode-cases cross_state = inl refl
  Mode-cases disabled = inr refl

  pub resolve_referrer-Extends :
      (referrer : Text) (t : Topology)
      → Holds (Extends t) (resolve_referrer options references referrer t)
  unfolding resolve_referrer
  resolve_referrer-Extends referrer t = elim (Option-cases (options.resources referrer)) [
    | inl unknown ↦ rw (unknown, resolve_referrer) same
    | inr (r, known) ↦ elim (Bool-cases (data_referent options referrer)) [
      | inl is_data ↦ rw (known, is_data, resolve_referrer) tt
      | inr not_data ↦ elim (Mode-cases (binding_mode options r.provider)) [
        | inr off ↦ rw (known, not_data, off, resolve_referrer) same
        | inl on ↦ elim (Bool-cases (generated_non_derived options referrer)) [
          | inr derived ↦ rw (known, not_data, on, derived, resolve_referrer) tt
          | inl generated ↦ elim (Option-cases (options.resource_roots referrer)) [
            | inl rootless ↦ rw (known, not_data, on, generated, rootless, resolve_referrer) tt
            | inr (root, placed) ↦
                rw (known, not_data, on, generated, placed, resolve_referrer)
                  (resolve_fields-Extends referrer root
                    (sorted (field_keys (fields_of referrer references))) t
                    (record {
                      known = (r, known, on);
                      generated = generated;
                      not_data = not_data;
                      placed = placed;
                    }))
          ]
        ]
      ]
    ]
  ]

  pub resolve_referrers-Extends :
      (names : List Text) (t : Topology)
      → Holds (Extends t) (resolve_referrers options references names t)
  unfolding resolve_referrers
  resolve_referrers-Extends [] t = same
  resolve_referrers-Extends (referrer ∷ rest) t =
      Holds-bind (Extends t) (Extends t) (resolve_referrer options references referrer t)
        (resolve_referrers options references rest) (resolve_referrer-Extends referrer t)
        (λ u h.
          Holds-trans (resolve_referrers options references rest u) h
            (resolve_referrers-Extends rest u))
