-- ===== src/Metadata/Listed.antt =====
-- When a list holds an element with a property: lists that are joined, sorted or filtered.
use infrawright_dev.Refedges.SetMaps.{sorted, member-sorted}
use infrawright_dev.Base.{
  true, List, [], ◌∷◌, ◌++◌, ◌≡◌, ◌↔◌, ◌⊎◌, inl, inr, sym, subst, ◌∙◌, arith, Text, text_eq,
  text_eq_iff, text_eq_refl, member, Any, Bool-cases,
}

pub iff_trans : {A B C : Type 0} → A ↔ B → B ↔ C → A ↔ C
iff_trans f g = (λ a. g.0 (f.0 a), λ c. f.1 (g.1 c))

pub or_iff : {A B C D : Type 0} → A ↔ C → B ↔ D → (A ⊎ B) ↔ (C ⊎ D)
or_iff f g = (
  λ h. elim h [ inl a ↦ inl (f.0 a) | inr b ↦ inr (g.0 b) ],
  λ h. elim h [ inl c ↦ inl (f.1 c) | inr d ↦ inr (g.1 d) ],
)

pub and_left_iff : {A B C : Type 0} → A ↔ B → (A × C) ↔ (B × C)
and_left_iff f = (λ h. (f.0 h.0, h.1), λ h. (f.1 h.0, h.1))

pub and_right_iff : {A B C : Type 0} → A ↔ B → (C × A) ↔ (C × B)
and_right_iff f = (λ h. (h.0, f.0 h.1), λ h. (h.0, f.1 h.1))

pub at_each :
    {A : Type 0} {P Q : A → Type 0} (xs : List A) → ((x : A) → P x ↔ Q x) → Any P xs ↔ Any Q xs
at_each [] h = (λ k. k, λ k. k)
at_each (x ∷ xs) h = or_iff (h x) (at_each xs h)

pub Any-append_iff :
    {A : Type 0} (P : A → Type 0) (xs ys : List A) → Any P (xs ++ ys) ↔ (Any P xs ⊎ Any P ys)
Any-append_iff P [] ys = (λ h. inr h, λ h. elim h [ inl e ↦ absurd e | inr k ↦ k ])
Any-append_iff P (x ∷ xs) ys = iff_trans (or_iff (λ h. h, λ h. h) (Any-append_iff P xs ys)) (
  λ h. elim h [ inl p ↦ inl (inl p) | inr (inl k) ↦ inl (inr k) | inr (inr k) ↦ inr k ],
  λ h. elim h [ inl (inl p) ↦ inl p | inl (inr k) ↦ inr (inl k) | inr k ↦ inr (inr k) ],
)

-- An element that a condition leaves out, and one that it lets in.
pub skip_iff : {G N X Y : Type 0} → ¬ G → X ↔ Y → X ↔ ((G × N) ⊎ Y)
skip_iff out f = (λ x. inr (f.0 x), λ h. elim h [ inl g ↦ absurd (out g.0) | inr y ↦ f.1 y ])

pub take_iff : {G M N X Y : Type 0} → G → M ↔ N → X ↔ Y → (M ⊎ X) ↔ ((G × N) ⊎ Y)
take_iff g e f = or_iff (λ m. (g, e.0 m), λ h. e.1 h.1) f

module _ (Q : Text → Type 0) where
  Any-member : (ts : List Text) → Any Q ts ↔ ((t : Text) × ((member t ts ≡ true) × Q t))
  unfolding member
  Any-member [] = (λ h. absurd h, λ h. absurd (ground (arith, h.1.0)))
  Any-member (t ∷ ts) = (
    λ h. elim h [
      | inl q ↦ (t, (ground (arith, text_eq_refl t), q))
      | inr k ↦ (let (u, r) = (Any-member ts).0 k in (u, (ground (arith, r.0), r.1)))
    ],
    λ h. elim (Bool-cases (text_eq h.0 t)) [
      | inl same ↦ inl (subst Q ((text_eq_iff h.0 t).0 same) h.1.1)
      | inr other ↦ inr ((Any-member ts).1 (h.0, (ground (arith, h.1.0, other), h.1.1)))
    ],
  )

  pub Any-sorted : (ts : List Text) → Any Q (sorted ts) ↔ Any Q ts
  Any-sorted ts = (
    λ h.
        let (t, r) = (Any-member (sorted ts)).0 h in
        (Any-member ts).1 (t, (sym (member-sorted t ts) ∙ r.0, r.1)),
    λ h.
        let (t, r) = (Any-member ts).0 h in
        (Any-member (sorted ts)).1 (t, (member-sorted t ts ∙ r.0, r.1)),
  )
