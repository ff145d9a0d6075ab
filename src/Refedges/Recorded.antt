-- ===== src/Refedges/Recorded.antt =====
-- What the edges of a topology say of its two maps of sets.
use infrawright_dev.Refedges.Qualified.{IsQualified, Extends, same, more}
use infrawright_dev.Refedges.Resolve.{
  Options, Edge, Topology, References, add_edge, no_edges, edge_lt,
}
use infrawright_dev.Refedges.SetMaps.{SetMap, targets, add_to_set, targets-add_to_set}
use infrawright_dev.Refedges.Walks.{DependsOn}
use infrawright_dev.Base.{
  true, false, ◌&&◌, List, [], ◌∷◌, ◌≡◌, ◌⊎◌, sym, ◌∙◌, arith, Text, text_eq, text_eq_iff,
  text_eq_refl, text_eq_comm, text_lt_asymm, member, All, All-append, Any, Any-append_left,
  Any-append_right, or-eq-true, and_iff, inl, inr,
}

-- An edge leads from a root to another.
abbrev pub Leads : Text → Text → List Edge → Type 0
Leads a b edges = Any (λ e. (e.referrer_root ≡ a) × (e.referent_root ≡ b)) edges

-- An edge has a referent in a root.
abbrev pub Serves : Text → Text → List Edge → Type 0
Serves a r edges = Any (λ e. (e.referent_root ≡ a) × (e.referent ≡ r)) edges

abbrev pub IsOutput : SetMap → Text → Text → Type 0
IsOutput outputs a r = member r (targets outputs a) ≡ true

abbrev pub IsRecorded : Topology → Edge → Type 0
IsRecorded t e =
    DependsOn t.dependencies_by_root e.referrer_root e.referent_root
    × IsOutput t.outputs_by_root e.referent_root e.referent

All-map : {P Q : Edge → Type 0} → ((e : Edge) → P e → Q e) → (es : List Edge) → All P es → All Q es
All-map f [] h = tt
All-map f (e ∷ es) h = (f e h.0, All-map f es h.1)

-- What a set has, it keeps, and it has what is added.
targets-add_to_set_old :
    (m : SetMap) (key value k d : Text)
    → member d (targets m k) ≡ true
    → member d (targets (add_to_set m key value) k) ≡ true
targets-add_to_set_old m key value k d h = ground (arith, targets-add_to_set m key value k d, h)

targets-add_to_set_new :
    (m : SetMap) (key value : Text) → member value (targets (add_to_set m key value) key) ≡ true
targets-add_to_set_new m key value =
    ground (arith, targets-add_to_set m key value key value, text_eq_refl key, text_eq_refl value)

targets-add_to_set_cases :
    (m : SetMap) (key value k d : Text)
    → member d (targets (add_to_set m key value) k) ≡ true
    → ((key ≡ k) × (value ≡ d)) ⊎ (member d (targets m k) ≡ true)
targets-add_to_set_cases m key value k d h =
    elim (or-eq-true (text_eq k key && text_eq d value) _
      (sym (targets-add_to_set m key value k d) ∙ h)) [
        | inl e ↦
            let both = (and_iff (text_eq k key) (text_eq d value)).0 e in
            inl (sym ((text_eq_iff k key).0 both.0), sym ((text_eq_iff d value).0 both.1))
        | inr old ↦ inr old
      ]

module _ (options : Options) (references : List References) where
  pub Extends-IsQualified :
      {t : Topology}
      → Extends options references no_edges t
      → All (IsQualified options references) t.edges
  unfolding add_edge
  Extends-IsQualified same = tt
  Extends-IsQualified (more {u = u} {e = e} k q) =
      All-append (IsQualified options references) u.edges (e ∷ []) (Extends-IsQualified k) (q, tt)

  pub Extends-IsRecorded :
      {t : Topology} → Extends options references no_edges t → All (IsRecorded t) t.edges
  unfolding add_edge
  Extends-IsRecorded same = tt
  Extends-IsRecorded (more {u = u} {e = e} k q) =
      All-append (IsRecorded (add_edge e u)) u.edges (e ∷ [])
        (All-map
          (λ x h. (
            targets-add_to_set_old u.dependencies_by_root e.referrer_root e.referent_root
                x.referrer_root x.referent_root h.0,
            targets-add_to_set_old u.outputs_by_root e.referent_root e.referent x.referent_root
                x.referent h.1,
          ))
          u.edges (Extends-IsRecorded k))
        (
          (
            targets-add_to_set_new u.dependencies_by_root e.referrer_root e.referent_root,
            targets-add_to_set_new u.outputs_by_root e.referent_root e.referent,
          ),
          tt,
        )

  pub Extends-Leads :
      {t : Topology} (a b : Text)
      → Extends options references no_edges t
      → DependsOn t.dependencies_by_root a b
      → Leads a b t.edges
  unfolding add_edge member targets
  Extends-Leads a b same h = cc
  Extends-Leads a b (more {u = u} {e = e} k q) h =
      elim (targets-add_to_set_cases u.dependencies_by_root e.referrer_root e.referent_root a b h) [
        | inl new ↦
            Any-append_right (λ x. (x.referrer_root ≡ a) × (x.referent_root ≡ b)) u.edges (e ∷ [])
              (inl new)
        | inr old ↦
            Any-append_left (λ x. (x.referrer_root ≡ a) × (x.referent_root ≡ b)) u.edges (e ∷ [])
              (Extends-Leads a b k old)
      ]

  pub Extends-Serves :
      {t : Topology} (a r : Text)
      → Extends options references no_edges t
      → IsOutput t.outputs_by_root a r
      → Serves a r t.edges
  unfolding add_edge member targets
  Extends-Serves a r same h = cc
  Extends-Serves a r (more {u = u} {e = e} k q) h =
      elim (targets-add_to_set_cases u.outputs_by_root e.referent_root e.referent a r h) [
        | inl new ↦
            Any-append_right (λ x. (x.referent_root ≡ a) × (x.referent ≡ r)) u.edges (e ∷ [])
              (inl new)
        | inr old ↦
            Any-append_left (λ x. (x.referent_root ≡ a) × (x.referent ≡ r)) u.edges (e ∷ [])
              (Extends-Serves a r k old)
      ]

pub edge_lt_asymm : (a b : Edge) → edge_lt a b ≡ true → edge_lt b a ≡ false
unfolding edge_lt
edge_lt_asymm a b h = ground (
  arith,
  text_eq_comm a.referrer b.referrer,
  text_eq_comm a.field_name b.field_name,
  text_lt_asymm a.referrer b.referrer,
  text_lt_asymm a.field_name b.field_name,
  text_lt_asymm a.referent b.referent,
  h,
)
