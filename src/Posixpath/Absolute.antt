-- ===== src/Posixpath/Absolute.antt =====
-- go/internal/posixpath/paths.go: the components of what `Absolute` writes.
use infrawright_dev.Base.{
  ℕ, zero, suc, Bool, true, false, not, ◌&&◌, List, [], ◌∷◌, if◌then◌else◌, Text, codes, text_eq,
  ◌≡◌, refl, ap, ◌∙◌, arith, Bool-cases, inl, inr, All,
}
use infrawright_dev.Tfrender.Imports.{join}
use infrawright_dev.Posixpath.Normalize.{
  has_prefix, join_parts, split, initial_slashes, dot_dot, reduce, in_order, repeat_slash,
  render_path, normalize, absolute,
}
use infrawright_dev.Posixpath.Reduced.{is_reduced, is_reduced-nil, reduce-is_reduced, split-clean}
use infrawright_dev.Posixpath.Idempotent.{
  split-join, IsOrdered, in_order-IsOrdered, normalize-render_path,
}

-- No component is "..".
abbrev pub NoParent : List Text → Type 0
NoParent = All (λ c. text_eq c dot_dot ≡ false)

in_order-NoParent :
    (n : ℕ) (stack later : List Text)
    → is_reduced (suc n) stack ≡ true
    → NoParent later
    → NoParent (in_order stack later)
unfolding in_order is_reduced
in_order-NoParent n [] later h k = k
in_order-NoParent n (c ∷ stack) later h k =
    in_order-NoParent n stack (c ∷ later) (ground (arith, h)) (ground (arith, h), k)

split-repeat_slash-NoParent :
    (n : ℕ) (t : Text) → NoParent (split t) → NoParent (split (repeat_slash n t))
unfolding split repeat_slash text_eq
split-repeat_slash-NoParent zero t h = h
split-repeat_slash-NoParent (suc n) t h = (refl, split-repeat_slash-NoParent n t h)

split-NoParent_nil : NoParent (split [])
unfolding split text_eq
split-NoParent_nil = (refl, tt)

-- The path of a reduced stack behind slashes.
render_path-NoParent :
    (n : ℕ) (stack : List Text)
    → is_reduced (suc n) stack ≡ true
    → NoParent (split (render_path (suc n) stack))
unfolding render_path
render_path-NoParent n [] h = split-repeat_slash-NoParent (suc n) [] split-NoParent_nil
render_path-NoParent n (c ∷ stack) h =
    split-repeat_slash-NoParent (suc n) (join (codes "/") (in_order (c ∷ stack) []))
      (rw splits (in_order-NoParent n (c ∷ stack) [] h tt))
  where
    ordered : IsOrdered (in_order (c ∷ stack) [])
    ordered = in_order-IsOrdered (suc n) stack c [] h tt

    splits : split (join (codes "/") (in_order (c ∷ stack) [])) ≡ in_order (c ∷ stack) []
    splits = rw ordered.shape (split-join ordered.first ordered.others ordered.clean)

render_path-has_prefix :
    (n : ℕ) (stack : List Text) → has_prefix (codes "/") (render_path (suc n) stack) ≡ true
unfolding render_path repeat_slash has_prefix
render_path-has_prefix n stack = refl

initial_slashes-has_prefix :
    (t : Text) → has_prefix (codes "/") t ≡ true → (n : ℕ) × (initial_slashes t ≡ suc n)
unfolding initial_slashes
initial_slashes-has_prefix t h =
    elim (Bool-cases (has_prefix (codes "//") t && not (has_prefix (codes "///") t))) [
      | inl two ↦ (1, rw two refl)
      | inr one ↦ (0, rw (one, h) refl)
    ]

normalize-NoParent :
    (t : Text)
    → has_prefix (codes "/") t ≡ true
    → (has_prefix (codes "/") (normalize t) ≡ true) × NoParent (split (normalize t))
normalize-NoParent t h =
    let (n, slashes) = initial_slashes-has_prefix t h in
    let stack = reduce (suc n) [] (split t) in
    let writes : normalize t ≡ render_path (suc n) stack =
      normalize-render_path t ∙ ap (λ i. render_path i (reduce i [] (split t))) slashes in
    let reduced = reduce-is_reduced (suc n) (split t) [] (split-clean t) (is_reduced-nil (suc n)) in
    rw writes (render_path-has_prefix n stack, render_path-NoParent n stack reduced)

join_parts-has_prefix :
    (value cwd : Text)
    → has_prefix (codes "/") cwd ≡ true
    → has_prefix (codes "/") (join_parts [] (cwd ∷ value ∷ [])) ≡ true
unfolding join_parts has_prefix
join_parts-has_prefix value [] h = cc
join_parts-has_prefix value (c ∷ cs) h = ground (arith, h)

choose_true : (b : Bool) (x y : Text) → b ≡ true → (if b then x else y) ≡ x
choose_true b x y h = rw h refl

choose_false : (b : Bool) (x y : Text) → b ≡ false → (if b then x else y) ≡ y
choose_false b x y h = rw h refl

absolute-own :
    (value cwd : Text) → has_prefix (codes "/") value ≡ true → absolute value cwd ≡ normalize value
unfolding absolute
absolute-own value cwd h = choose_true (has_prefix (codes "/") value) (normalize value) _ h

absolute-joined :
    (value cwd : Text)
    → has_prefix (codes "/") value ≡ false
    → absolute value cwd ≡ normalize (join_parts [] (cwd ∷ value ∷ []))
unfolding absolute
absolute-joined value cwd h = choose_false (has_prefix (codes "/") value) (normalize value) _ h

-- With an absolute working directory, `Absolute` writes an absolute path without a ".." component,
-- for any value.
pub absolute-NoParent :
    (value cwd : Text)
    → has_prefix (codes "/") cwd ≡ true
    → (has_prefix (codes "/") (absolute value cwd) ≡ true) × NoParent (split (absolute value cwd))
absolute-NoParent value cwd h = elim (Bool-cases (has_prefix (codes "/") value)) [
  | inl own ↦ rw (absolute-own value cwd own) (normalize-NoParent value own)
  | inr joined ↦
      rw (absolute-joined value cwd joined)
        (normalize-NoParent (join_parts [] (cwd ∷ value ∷ [])) (join_parts-has_prefix value cwd h))
]
