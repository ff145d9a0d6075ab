-- ===== src/Posixpath/Idempotent.antt =====
-- go/internal/posixpath/paths.go: `Normalize` on what it has written.
use infrawright_dev.Base.{
  ℕ, zero, suc, ◌≤◌, true, false, List, [], ◌∷◌, ◌++◌, ◌==◌, Text, codes, text_eq, ◌≡◌, refl, sym,
  ap, ◌∙◌, arith, All,
}
use infrawright_dev.Tfrender.Imports.{join}
use infrawright_dev.Posixpath.Normalize.{
  slash, has_prefix, split, initial_slashes, push, reduce, in_order, repeat_slash, or_dot,
  render_path, normalize,
}
use infrawright_dev.Posixpath.Reduced.{
  has_slash, is_component, is_reduced, is_reduced-nil, reduce-is_reduced, split-clean,
  is_reduced-rest, reduce-in_order,
}

split-append_slash :
    (c rest : Text) → has_slash c ≡ false → split (c ++ slash ∷ rest) ≡ c ∷ split rest
unfolding split has_slash
split-append_slash [] rest h = refl
split-append_slash (x ∷ c) rest h = ground (arith, h, split-append_slash c rest)

split-sole : (c : Text) → has_slash c ≡ false → split c ≡ c ∷ []
unfolding split has_slash
split-sole [] h = refl
split-sole (x ∷ c) h = ground (arith, h, split-sole c)

pub split-join :
    (c : Text) (cs : List Text)
    → All (λ d. has_slash d ≡ false) (c ∷ cs)
    → split (join (codes "/") (c ∷ cs)) ≡ c ∷ cs
unfolding join
split-join c [] h = split-sole c h.0
split-join c (d ∷ cs) h =
    split-append_slash c (join (codes "/") (d ∷ cs)) h.0 ∙ ap (λ l. c ∷ l) (split-join d cs h.1)

-- The components of a reduced stack, in order.
pub record IsOrdered (cs : List Text) : Type 0 where
  pub first : Text
  pub others : List Text
  pub shape : cs ≡ first ∷ others
  pub component : is_component first ≡ true
  pub clean : All (λ d. has_slash d ≡ false) (first ∷ others)

is_component-clean : (c : Text) → is_component c ≡ true → has_slash c ≡ false
unfolding is_component
is_component-clean c h = ground (arith, h)

is_reduced-component :
    (slashes : ℕ) (stack : List Text) (c : Text)
    → is_reduced slashes (c ∷ stack) ≡ true
    → is_component c ≡ true
unfolding is_reduced
is_reduced-component slashes stack c h = ground (arith, h)

pub in_order-IsOrdered :
    (slashes : ℕ) (stack : List Text) (c : Text) (later : List Text)
    → is_reduced slashes (c ∷ stack) ≡ true
    → All (λ d. has_slash d ≡ false) later
    → IsOrdered (in_order (c ∷ stack) later)
unfolding in_order
in_order-IsOrdered slashes [] c later h clean =
    let component = is_reduced-component slashes [] c h in
    record {
      first = c;
      others = later;
      shape = refl;
      component = component;
      clean = (is_component-clean c component, clean);
    }
in_order-IsOrdered slashes (d ∷ stack) c later h clean =
    in_order-IsOrdered slashes stack d (c ∷ later) (is_reduced-rest slashes (d ∷ stack) c h)
      (is_component-clean c (is_reduced-component slashes (d ∷ stack) c h), clean)

-- The text of components starts with another character than a slash.
pub record IsPlain (t : Text) : Type 0 where
  pub head : ℕ
  pub tail : Text
  pub shape : t ≡ head ∷ tail
  pub other : (head == slash) ≡ false

pub join-IsPlain :
    (c : Text) (cs : List Text) → is_component c ≡ true → IsPlain (join (codes "/") (c ∷ cs))
unfolding join is_component has_slash
join-IsPlain [] cs h = cc
join-IsPlain (x ∷ c) [] h = record { head = x; tail = c; shape = refl; other = ground (arith, h) }
join-IsPlain (x ∷ c) (d ∷ cs) h = record {
  head = x;
  tail = c ++ slash ∷ join (codes "/") (d ∷ cs);
  shape = refl;
  other = ground (arith, h);
}

initial_slashes-repeat_slash :
    (n : ℕ) (t : Text) → n ≤ 2 → IsPlain t → initial_slashes (repeat_slash n t) ≡ n
unfolding initial_slashes has_prefix repeat_slash
initial_slashes-repeat_slash zero t small plain = rw plain.shape (ground (arith, plain.other))
initial_slashes-repeat_slash (suc zero) t small plain = rw plain.shape (ground (arith, plain.other))
initial_slashes-repeat_slash (suc (suc zero)) t small plain =
    rw plain.shape (ground (arith, plain.other))
initial_slashes-repeat_slash (suc (suc (suc n))) t small plain = absurd (omega (arith, small))

reduce-repeat_slash :
    (slashes n : ℕ) (t : Text)
    → reduce slashes [] (split (repeat_slash n t)) ≡ reduce slashes [] (split t)
unfolding repeat_slash split reduce push
reduce-repeat_slash slashes zero t = refl
reduce-repeat_slash slashes (suc n) t = reduce-repeat_slash slashes n t

pub normalize-render_path :
    (t : Text)
    → normalize t ≡ render_path (initial_slashes t) (reduce (initial_slashes t) [] (split t))
unfolding normalize render_path initial_slashes has_prefix reduce split push repeat_slash in_order
    join text_eq
normalize-render_path [] = refl
normalize-render_path (c ∷ cs) = refl

pub or_dot-repeat_slash :
    (n : ℕ) (t : Text) → IsPlain t → or_dot (repeat_slash n t) ≡ repeat_slash n t
unfolding repeat_slash
or_dot-repeat_slash zero t plain = rw plain.shape refl
or_dot-repeat_slash (suc n) t plain = refl

reduce-nil : (slashes : ℕ) (stack : List Text) → reduce slashes stack [] ≡ stack
unfolding reduce
reduce-nil slashes stack = refl

pub initial_slashes-bound : (t : Text) → initial_slashes t ≤ 2
unfolding initial_slashes
initial_slashes-bound t = ground arith

normalize-no_components : (n : ℕ) → n ≤ 2 → normalize (render_path n []) ≡ render_path n []
unfolding normalize render_path initial_slashes has_prefix reduce split push repeat_slash in_order
    join text_eq
normalize-no_components zero small = refl
normalize-no_components (suc zero) small = refl
normalize-no_components (suc (suc zero)) small = refl
normalize-no_components (suc (suc (suc n))) small = absurd (omega (arith, small))

normalize-reduced :
    (n : ℕ) (stack : List Text)
    → n ≤ 2
    → is_reduced n stack ≡ true
    → normalize (render_path n stack) ≡ render_path n stack
unfolding render_path
normalize-reduced n [] small h = normalize-no_components n small
normalize-reduced n (c ∷ stack) small h =
    ap normalize (or_dot-repeat_slash n body plain)
    ∙ normalize-render_path (repeat_slash n body)
    ∙ ap (λ i. render_path i (reduce i [] (split (repeat_slash n body))))
        (initial_slashes-repeat_slash n body small plain)
    ∙ ap (render_path n) (
        reduce-repeat_slash n n body
        ∙ ap (reduce n []) splits
        ∙ reduce-in_order n (c ∷ stack) [] h
        ∙ reduce-nil n (c ∷ stack))
  where
    ordered : IsOrdered (in_order (c ∷ stack) [])
    ordered = in_order-IsOrdered n stack c [] h tt

    body : Text
    body = join (codes "/") (in_order (c ∷ stack) [])

    plain : IsPlain body
    plain = rw ordered.shape (join-IsPlain ordered.first ordered.others ordered.component)

    splits : split body ≡ in_order (c ∷ stack) []
    splits = rw ordered.shape (split-join ordered.first ordered.others ordered.clean)

-- Normalizing a path that `Normalize` has written changes nothing.
pub normalize-normalize : (t : Text) → normalize (normalize t) ≡ normalize t
normalize-normalize t =
    let n = initial_slashes t in
    let stack = reduce n [] (split t) in
    let reduced = reduce-is_reduced n (split t) [] (split-clean t) (is_reduced-nil n) in
    ap normalize (normalize-render_path t)
    ∙ normalize-reduced n stack (initial_slashes-bound t) reduced
    ∙ sym (normalize-render_path t)
