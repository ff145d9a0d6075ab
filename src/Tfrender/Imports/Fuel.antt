-- ===== src/Tfrender/Imports/Fuel.antt =====
-- go/internal/tfrender/import_moves.go: the fuel of the loop of `ParseGeneratedImports`.
use infrawright_dev.Base.{
  ℕ, zero, suc, ◌≤◌, ◌<◌, ◌≡◌, ◌≢◌, refl, Bool, true, false, not, List, [], ◌∷◌, ◌++◌, leb, length,
  Text, codes, text_eq, member, has_duplicate, Option, none, some, Result, ok, err, ◌>>=◌, arith,
}
use infrawright_dev.Base.Sorting.{stable_sort}
use infrawright_dev.Tfrender.Quoted.Fuel.{Returns, parse_quoted-Returns}
use infrawright_dev.Tfrender.Quoted.{
  Failure, no_fuel, invalid_import_resource_type, import_move_limit_exceeded,
  invalid_generated_imports, contains_nul, render_quoted, strip_prefix, parse_quoted,
}
use infrawright_dev.Tfrender.Imports.{
  GeneratedImportPair, keys, key_lt, require, is_import_resource_type, max_generated_import_pairs,
  block_prefix, render_block, render_blocks, render_generated_imports, expect_literal, parse_block,
  expect_separator, parse_loop, parse_generated_imports,
}

abbrev Anything {ℓ} : {A : Type ℓ} → A → Type 0
Anything a = Unit

-- A value with the property, or a failure that is not the end of the fuel.
abbrev Ensures {ℓ} : {A : Type ℓ} → (A → Type 0) → Result Failure A → Type 0
Ensures P (ok a) = P a
Ensures P (err e) = e ≢ no_fuel

bind-Ensures {ℓ κ} :
    {A : Type ℓ} {B : Type κ} (P : A → Type 0) (Q : B → Type 0) (m : Result Failure A)
    (f : A → Result Failure B)
    → Ensures P m
    → ((a : A) → P a → Ensures Q (f a))
    → Ensures Q (m >>= f)
bind-Ensures P Q (ok a) f h k = k a h
bind-Ensures P Q (err e) f h k = h

require-Ensures : (b : Bool) (e : Failure) → e ≢ no_fuel → Ensures Anything (require b e)
require-Ensures true e h = tt
require-Ensures false e h = h

strip_prefix-length : (p t rest : Text) → strip_prefix p t ≡ some rest → length rest ≤ length t
unfolding strip_prefix
strip_prefix-length [] t rest h = ground arith
strip_prefix-length (c ∷ p) [] rest h = cc
strip_prefix-length (c ∷ p) (d ∷ t) rest h = ground (arith, strip_prefix-length p t rest)

expect_literal-Ensures :
    (p t : Text) → Ensures (λ rest. length rest ≤ length t) (expect_literal p t)
unfolding expect_literal
expect_literal-Ensures p t = go (strip_prefix p t) refl
  where
    go :
        (o : Option Text)
        → strip_prefix p t ≡ o
        → Ensures (λ rest. length rest ≤ length t) (expect_literal p t)
    go none e = rw (e, expect_literal) (λ q. cc)
    go (some rest) e = rw (e, expect_literal) (strip_prefix-length p t rest e)

expect_separator-Ensures :
    (t : Text) → Ensures (λ rest. length rest ≤ length t) (expect_separator t)
unfolding expect_separator
expect_separator-Ensures [] = omega arith
expect_separator-Ensures (c ∷ cs) = expect_literal-Ensures (codes "\n") (c ∷ cs)

quoted-Ensures : (t : Text) → Ensures (λ r. length r.1 < length t) (parse_quoted t)
quoted-Ensures t = go (parse_quoted t) (parse_quoted-Returns t)
  where
    go :
        (r : Result Failure (Text × Text))
        → Returns (length t) r
        → Ensures (λ r. length r.1 < length t) r
    go (ok (v, rest)) h = h
    go (err e) h = h

parse_block-Ensures :
    (prefix t : Text) → Ensures (λ r. length r.1 < length t) (parse_block prefix t)
unfolding parse_block
parse_block-Ensures prefix t =
    bind-Ensures _ _ (expect_literal prefix t) _ (expect_literal-Ensures prefix t) λ a ha.
      bind-Ensures _ _ (parse_quoted a) _ (quoted-Ensures a) λ b hb.
        bind-Ensures _ _ (expect_literal (codes "]\n  id = ") b.1) _
          (expect_literal-Ensures (codes "]\n  id = ") b.1)
          λ c hc. bind-Ensures _ _ (parse_quoted c) _ (quoted-Ensures c) λ d hd.
            bind-Ensures _ _ (expect_literal (codes "\n}\n") d.1) _
              (expect_literal-Ensures (codes "\n}\n") d.1) λ e he. omega arith

parse_loop-Ensures :
    (fuel : ℕ) (prefix : Text) (pairs : List GeneratedImportPair) (t : Text)
    → length t < fuel
    → Ensures Anything (parse_loop fuel prefix pairs t)
unfolding parse_loop
parse_loop-Ensures zero prefix pairs t h = elim h [ ]
parse_loop-Ensures (suc fuel) prefix pairs [] h = tt
parse_loop-Ensures (suc fuel) prefix pairs (c ∷ cs) h =
    bind-Ensures _ Anything (parse_block prefix (c ∷ cs)) _ (parse_block-Ensures prefix (c ∷ cs))
      λ r hr.
        bind-Ensures Anything Anything
          (require (not (member r.0.key (keys pairs))) invalid_generated_imports) _
          (require-Ensures _ _ (λ q. cc))
          λ _ _.
            bind-Ensures Anything Anything
              (require (not (leb max_generated_import_pairs (length pairs)))
                import_move_limit_exceeded)
              _ (require-Ensures _ _ (λ q. cc))
              λ _ _.
                bind-Ensures _ Anything (expect_separator r.1) _ (expect_separator-Ensures r.1)
                  λ next hn. parse_loop-Ensures fuel prefix (pairs ++ r.0 ∷ []) next (omega arith)

render_quoted-Ensures : (v : Text) → Ensures Anything (render_quoted v)
unfolding render_quoted
render_quoted-Ensures v = go (contains_nul v) refl
  where
    go : (b : Bool) → contains_nul v ≡ b → Ensures Anything (render_quoted v)
    go true e = rw e (λ q. cc)
    go false e = rw e tt

render_blocks-Ensures :
    (resource_type : Text) (ps : List GeneratedImportPair)
    → Ensures Anything (render_blocks resource_type ps)
unfolding render_blocks render_block
render_blocks-Ensures resource_type [] = tt
render_blocks-Ensures resource_type (p ∷ ps) =
    bind-Ensures Anything Anything (render_block resource_type p) _
      (bind-Ensures Anything Anything (render_quoted p.key) _ (render_quoted-Ensures p.key) λ key _.
        bind-Ensures Anything Anything (render_quoted p.import_id) _
          (render_quoted-Ensures p.import_id) λ id _. tt)
      λ block _.
        bind-Ensures Anything Anything (render_blocks resource_type ps) _
          (render_blocks-Ensures resource_type ps) λ blocks _. tt

type-ne-no_fuel : invalid_import_resource_type ≢ no_fuel
type-ne-no_fuel q = cc

limit-ne-no_fuel : import_move_limit_exceeded ≢ no_fuel
limit-ne-no_fuel q = cc

imports-ne-no_fuel : invalid_generated_imports ≢ no_fuel
imports-ne-no_fuel q = cc

render_generated_imports-Ensures :
    (resource_type : Text) (ps : List GeneratedImportPair)
    → Ensures Anything (render_generated_imports resource_type ps)
unfolding render_generated_imports
render_generated_imports-Ensures resource_type ps =
    bind-Ensures Anything Anything
      (require (is_import_resource_type resource_type) invalid_import_resource_type) _
      (require-Ensures _ _ type-ne-no_fuel)
      λ _ _.
        bind-Ensures Anything Anything
          (require (leb (length ps) max_generated_import_pairs) import_move_limit_exceeded) _
          (require-Ensures _ _ limit-ne-no_fuel)
          λ _ _.
            bind-Ensures Anything Anything
              (require (not (has_duplicate [] (keys ps))) invalid_generated_imports) _
              (require-Ensures _ _ imports-ne-no_fuel)
              λ _ _.
                bind-Ensures Anything Anything (render_blocks resource_type (stable_sort key_lt ps))
                  _ (render_blocks-Ensures resource_type (stable_sort key_lt ps)) λ blocks _. tt

parse_generated_imports-Ensures :
    (resource_type t : Text) → Ensures Anything (parse_generated_imports resource_type t)
unfolding parse_generated_imports
parse_generated_imports-Ensures resource_type [] =
    bind-Ensures Anything Anything
      (require (is_import_resource_type resource_type) invalid_import_resource_type) _
      (require-Ensures _ _ type-ne-no_fuel) λ _ _. tt
parse_generated_imports-Ensures resource_type (c ∷ cs) =
    bind-Ensures Anything Anything
      (require (is_import_resource_type resource_type) invalid_import_resource_type) _
      (require-Ensures _ _ type-ne-no_fuel)
      λ _ _.
        bind-Ensures Anything Anything
          (parse_loop (suc (length (c ∷ cs))) (block_prefix resource_type) [] (c ∷ cs)) _
          (parse_loop-Ensures (suc (length (c ∷ cs))) (block_prefix resource_type) [] (c ∷ cs)
            (omega arith))
          λ pairs _.
            bind-Ensures Anything Anything (render_generated_imports resource_type pairs) _
              (render_generated_imports-Ensures resource_type pairs)
              λ rendered _.
                bind-Ensures Anything Anything
                  (require (text_eq rendered (c ∷ cs)) invalid_generated_imports) _
                  (require-Ensures _ _ imports-ne-no_fuel) λ _ _. tt

-- `ParseGeneratedImports` ends on every text: the fuel of its loop is never used up.
pub parse_generated_imports-ne-no_fuel :
    (resource_type t : Text) → parse_generated_imports resource_type t ≢ err no_fuel
parse_generated_imports-ne-no_fuel resource_type t h =
    (rw h at (parse_generated_imports-Ensures resource_type t)) refl
