-- ===== src/Tfrender/Imports/Canonical.antt =====
-- `ParseGeneratedImports` against `RenderGeneratedImports`, on whole files.
use infrawright_dev.Base.Sorting.{
  stable_sort, stable_sort-IsSorted, stable_sort-IsSorted_self, length-stable_sort, All-stable_sort,
}
use infrawright_dev.Base.SortedKeys.{is_distinct-stable_sort}
use infrawright_dev.Base.{
  ℕ, suc, ◌≤◌, ◌<◌, ◌≡◌, subst, sym, ◌∙◌, true, List, [], ◌∷◌, leb, length, length-append, Text,
  codes, text_eq_refl, text_eq_iff, text_lt_asymm, is_distinct, has_duplicate,
  has_duplicate-is_distinct, ok, bind-eq-ok, All, arith,
}
use infrawright_dev.Tfrender.Imports.RoundTrip.{IsClean, parse_loop-render_blocks}
use infrawright_dev.Tfrender.Imports.{
  GeneratedImportPair, keys, key_lt, require_import_resource_type, is_import_resource_type,
  max_generated_import_pairs, block_prefix, render_block, render_blocks, join,
  render_generated_imports, parse_loop, parse_generated_imports,
}

sort_again :
    (ps : List GeneratedImportPair)
    → stable_sort key_lt (stable_sort key_lt ps) ≡ stable_sort key_lt ps
sort_again ps =
    stable_sort-IsSorted_self key_lt (stable_sort key_lt ps)
      (stable_sort-IsSorted key_lt (λ a b. text_lt_asymm a.key b.key) ps)

-- The order of the pairs does not matter to the renderer.
render-stable_sort :
    (resource_type : Text) (ps : List GeneratedImportPair)
    → render_generated_imports resource_type (stable_sort key_lt ps)
      ≡ render_generated_imports resource_type ps
unfolding render_generated_imports
render-stable_sort resource_type ps = rw (
  length-stable_sort key_lt ps,
  has_duplicate-is_distinct,
  is_distinct-stable_sort key_lt (λ p. p.key),
  sort_again ps,
  has_duplicate-is_distinct (keys ps),
)

-- What `RenderGeneratedImports` accepts.
pub record IsRenderable (resource_type : Text) (ps : List GeneratedImportPair) : Type 0 where
  pub identifier : is_import_resource_type resource_type ≡ true
  pub clean : All IsClean ps
  pub distinct : is_distinct (keys ps) ≡ true
  pub bound : length ps ≤ max_generated_import_pairs

length-render_blocks :
    (resource_type : Text) (ps : List GeneratedImportPair) (bs : List Text)
    → render_blocks resource_type ps ≡ ok bs
    → length bs ≡ length ps
unfolding render_blocks
length-render_blocks resource_type [] bs h = ground arith
length-render_blocks resource_type (p ∷ ps) bs h =
    let (block, first, others) = bind-eq-ok (render_block resource_type p) _ h in
    let (blocks, last, joined) = bind-eq-ok (render_blocks resource_type ps) _ others in
    ground (arith, length-render_blocks resource_type ps blocks last)

length-join_le : (b : Text) (bs : List Text) → length bs ≤ length (join (codes "\n") (b ∷ bs))
unfolding join
length-join_le b [] = omega arith
length-join_le b (x ∷ xs) =
    omega (arith, length-join_le x xs, length-append b (b'\n' ∷ join (codes "\n") (x ∷ xs)))

length-join :
    (c : ℕ) (b : Text) (bs : List Text)
    → suc (length bs) ≤ length (join (codes "\n") ((c ∷ b) ∷ bs))
unfolding join
length-join c b [] = omega arith
length-join c b (x ∷ xs) =
    omega (arith, length-join_le x xs, length-append b (b'\n' ∷ join (codes "\n") (x ∷ xs)))

-- With the fuel that `parse_generated_imports` gives.
parse_loop-sorted :
    (resource_type : Text) (q : GeneratedImportPair) (qs : List GeneratedImportPair)
    → IsRenderable resource_type (q ∷ qs)
    → (b : Text) × (bs : List Text) × (render_blocks resource_type (q ∷ qs) ≡ ok ((b'i' ∷ b) ∷ bs))
      × (parse_loop
            (suc (length (join (codes "\n") ((b'i' ∷ b) ∷ bs))))
            (block_prefix resource_type)
            []
            (join (codes "\n") ((b'i' ∷ b) ∷ bs))
          ≡ ok (q ∷ qs))
parse_loop-sorted resource_type q qs h =
    let run = λ (fuel : ℕ) (k : length (q ∷ qs) < fuel).
      parse_loop-render_blocks resource_type q qs [] fuel h.clean h.distinct h.bound k in
    let (b, bs, writes, _) = run (suc (length (q ∷ qs))) (omega arith) in
    let text = join (codes "\n") ((b'i' ∷ b) ∷ bs) in
    let (b', bs', writes', reads') = run (suc (length text)) (
      omega (arith, length-join b'i' b bs, length-render_blocks resource_type (q ∷ qs) _ writes)) in
    let same : (b'i' ∷ b') ∷ bs' ≡ (b'i' ∷ b) ∷ bs = cc in
    (
      b,
      bs,
      writes,
      subst
          (λ l.
            parse_loop (suc (length text)) (block_prefix resource_type) [] (join (codes "\n") l)
            ≡ ok (q ∷ qs))
          same reads',
    )

parse_generated_imports_of :
    (resource_type t : Text) (pairs : List GeneratedImportPair)
    → 0 < length t
    → is_import_resource_type resource_type ≡ true
    → parse_loop (suc (length t)) (block_prefix resource_type) [] t ≡ ok pairs
    → render_generated_imports resource_type pairs ≡ ok t
    → parse_generated_imports resource_type t ≡ ok pairs
unfolding parse_generated_imports
parse_generated_imports_of resource_type [] pairs h i reads writes = elim h [ ]
parse_generated_imports_of resource_type (c ∷ cs) pairs h i reads writes =
    rw (i, reads, writes, text_eq_refl (c ∷ cs))

parse-nil :
    (resource_type : Text)
    → is_import_resource_type resource_type ≡ true
    → parse_generated_imports resource_type [] ≡ ok []
unfolding parse_generated_imports
parse-nil resource_type h = rw h

render-nil :
    (resource_type : Text)
    → is_import_resource_type resource_type ≡ true
    → render_generated_imports resource_type [] ≡ ok []
unfolding render_generated_imports stable_sort has_duplicate join
render-nil resource_type h = rw h

rendered_of :
    (resource_type : Text) (ps : List GeneratedImportPair) (bs : List Text)
    → IsRenderable resource_type ps
    → stable_sort key_lt ps ≡ ps
    → render_blocks resource_type ps ≡ ok bs
    → render_generated_imports resource_type ps ≡ ok (join (codes "\n") bs)
unfolding render_generated_imports
rendered_of resource_type ps bs h sorted writes =
    rw (h.identifier, in_bound, has_duplicate-is_distinct (keys ps), h.distinct, sorted, writes)
  where
    in_bound : leb (length ps) max_generated_import_pairs ≡ true
    in_bound = ground (arith, h.bound)

parse-sorted :
    (resource_type : Text) (qs : List GeneratedImportPair)
    → IsRenderable resource_type qs
    → stable_sort key_lt qs ≡ qs
    → (t : Text) × (render_generated_imports resource_type qs ≡ ok t)
      × (parse_generated_imports resource_type t ≡ ok qs)
parse-sorted resource_type [] h sorted =
    ([], render-nil resource_type h.identifier, parse-nil resource_type h.identifier)
parse-sorted resource_type (q ∷ qs) h sorted =
    let (b, bs, writes, reads) = parse_loop-sorted resource_type q qs h in
    let t = join (codes "\n") ((b'i' ∷ b) ∷ bs) in
    let rendered : render_generated_imports resource_type (q ∷ qs) ≡ ok t =
      rendered_of resource_type (q ∷ qs) _ h sorted writes in
    (
      t,
      rendered,
      parse_generated_imports_of resource_type t (q ∷ qs) (omega (arith, length-join b'i' b bs))
          h.identifier reads rendered,
    )

-- `RenderGeneratedImports` writes every list of pairs with a canonical resource type, distinct keys,
-- no NUL and at most 50,000 pairs, and `ParseGeneratedImports` reads what it writes back as the same
-- pairs in the order of their keys.
pub parse_generated_imports-render_generated_imports :
    (resource_type : Text) (ps : List GeneratedImportPair)
    → IsRenderable resource_type ps
    → (t : Text) × (render_generated_imports resource_type ps ≡ ok t)
      × (parse_generated_imports resource_type t ≡ ok (stable_sort key_lt ps))
parse_generated_imports-render_generated_imports resource_type ps h =
    let (t, writes, reads) =
      parse-sorted resource_type (stable_sort key_lt ps) sorted (sort_again ps) in
    (t, sym (render-stable_sort resource_type ps) ∙ writes, reads)
  where
    sorted : IsRenderable resource_type (stable_sort key_lt ps)
    sorted = record {
      identifier = h.identifier;
      clean = All-stable_sort key_lt IsClean ps h.clean;
      distinct = is_distinct-stable_sort key_lt (λ p. p.key) ps ∙ h.distinct;
      bound = rw length-stable_sort h.bound;
    }

render-is_distinct :
    (resource_type t : Text) (ps : List GeneratedImportPair)
    → render_generated_imports resource_type ps ≡ ok t
    → is_distinct (keys ps) ≡ true
unfolding render_generated_imports
render-is_distinct resource_type t ps h = ground (arith, has_duplicate-is_distinct (keys ps))

parse-render :
    (resource_type t : Text) (ps : List GeneratedImportPair)
    → parse_generated_imports resource_type t ≡ ok ps
    → render_generated_imports resource_type ps ≡ ok t
unfolding parse_generated_imports
parse-render resource_type [] ps h =
    let (_, typed, result) = bind-eq-ok (require_import_resource_type resource_type) _ h in
    let none_read : [] ≡ ps = cc in rw (← none_read) (render-nil resource_type (ground arith))
parse-render resource_type (c ∷ cs) ps h =
    let (_, typed, after_type) = bind-eq-ok (require_import_resource_type resource_type) _ h in
    let (pairs, reads, after_loop) =
      bind-eq-ok (parse_loop (suc (length (c ∷ cs))) (block_prefix resource_type) [] (c ∷ cs)) _
        after_type in
    let (rendered, writes, after_render) =
      bind-eq-ok (render_generated_imports resource_type pairs) _ after_loop in
    ground (arith, text_eq_iff rendered (c ∷ cs))

-- A file that `ParseGeneratedImports` accepts is byte for byte the file that
-- `RenderGeneratedImports` writes for the pairs read, and no key stands twice among them.
pub parse_generated_imports-IsCanonical :
    (resource_type t : Text) (ps : List GeneratedImportPair)
    → parse_generated_imports resource_type t ≡ ok ps
    → (render_generated_imports resource_type ps ≡ ok t) × (is_distinct (keys ps) ≡ true)
parse_generated_imports-IsCanonical resource_type t ps h =
    let writes = parse-render resource_type t ps h in
    (writes, render-is_distinct resource_type t ps writes)
