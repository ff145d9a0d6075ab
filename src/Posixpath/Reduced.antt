-- ===== src/Posixpath/Reduced.antt =====
-- The stacks that `Normalize` leaves as they are, and that it ends with one.
use infrawright_dev.Base.{
  ℕ, Bool, true, false, not, ◌&&◌, ◌||◌, List, [], ◌∷◌, ◌==◌, Text, text_eq, ◌≡◌, refl, ap, ◌∙◌,
  arith, Bool-cases, inl, inr, All,
}
use infrawright_dev.Posixpath.Normalize.{
  slash, is_blank, add_first, split, dot, dot_dot, no_parent, push, reduce, in_order,
}

unfoldable pub has_slash : Text → Bool
has_slash [] = false
has_slash (c ∷ cs) = c == slash || has_slash cs

-- A component that `Normalize` keeps.
unfoldable pub is_component : Text → Bool
unfolding has_slash
is_component c = not (is_blank c) && not (text_eq c dot) && not (has_slash c)

-- A stack that it leaves as it is: ".." stands at the bottom only, and nowhere in an absolute path.
unfoldable pub is_reduced : ℕ → List Text → Bool
unfolding is_component
is_reduced slashes [] = true
is_reduced slashes (c ∷ stack) =
    is_component c
    && (not (text_eq c dot_dot) || (slashes == 0 && no_parent stack))
    && is_reduced slashes stack

pub is_reduced-nil : (slashes : ℕ) → is_reduced slashes [] ≡ true
unfolding is_reduced
is_reduced-nil slashes = refl

push-is_reduced :
    (slashes : ℕ) (stack : List Text) (c : Text)
    → has_slash c ≡ false
    → is_reduced slashes stack ≡ true
    → is_reduced slashes (push slashes stack c) ≡ true
unfolding push is_reduced is_component
push-is_reduced slashes [] c clean h = ground (arith, clean, h)
push-is_reduced slashes (d ∷ stack) c clean h = ground (arith, clean, h)

pub reduce-is_reduced :
    (slashes : ℕ) (cs stack : List Text)
    → All (λ c. has_slash c ≡ false) cs
    → is_reduced slashes stack ≡ true
    → is_reduced slashes (reduce slashes stack cs) ≡ true
unfolding reduce
reduce-is_reduced slashes [] stack clean h = h
reduce-is_reduced slashes (c ∷ cs) stack clean h =
    reduce-is_reduced slashes cs (push slashes stack c) clean.1
      (push-is_reduced slashes stack c clean.0 h)

add_first-clean :
    (c : ℕ) (ts : List Text)
    → (c == slash) ≡ false
    → All (λ t. has_slash t ≡ false) ts
    → All (λ t. has_slash t ≡ false) (add_first c ts)
unfolding has_slash
add_first-clean c [] other h = (ground (arith, other), tt)
add_first-clean c (t ∷ ts) other h = (ground (arith, other, h.0), h.1)

pub split-clean : (t : Text) → All (λ c. has_slash c ≡ false) (split t)
unfolding split has_slash
split-clean [] = (refl, tt)
split-clean (c ∷ cs) = elim (Bool-cases (c == slash)) [
  | inl here ↦ rw here (refl, split-clean cs)
  | inr other ↦ rw other (add_first-clean c (split cs) other (split-clean cs))
]

-- A reduced component is pushed.
push-reduced :
    (slashes : ℕ) (stack : List Text) (c : Text)
    → is_reduced slashes (c ∷ stack) ≡ true
    → push slashes stack c ≡ c ∷ stack
unfolding push is_reduced is_component
push-reduced slashes stack c h = ground (arith, h)

pub is_reduced-rest :
    (slashes : ℕ) (stack : List Text) (c : Text)
    → is_reduced slashes (c ∷ stack) ≡ true
    → is_reduced slashes stack ≡ true
unfolding is_reduced
is_reduced-rest slashes stack c h = ground (arith, h)

pub reduce-in_order :
    (slashes : ℕ) (stack later : List Text)
    → is_reduced slashes stack ≡ true
    → reduce slashes [] (in_order stack later) ≡ reduce slashes stack later
unfolding reduce in_order
reduce-in_order slashes [] later h = refl
reduce-in_order slashes (c ∷ stack) later h =
    reduce-in_order slashes stack (c ∷ later) (is_reduced-rest slashes stack c h)
    ∙ ap (λ s. reduce slashes s later) (push-reduced slashes stack c h)
