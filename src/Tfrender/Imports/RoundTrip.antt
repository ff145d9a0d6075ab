-- ===== src/Tfrender/Imports/RoundTrip.antt =====
-- Reading back the import file that `RenderGeneratedImports` writes.
use infrawright_dev.Base.{
  ℕ, zero, suc, ◌≤◌, ◌<◌, ◌≡◌, refl, sym, ap, ◌∙◌, true, false, List, [], ◌∷◌, ◌++◌, leb, length,
  length-append, Text, codes, member, is_distinct, is_distinct-append-cons, some, ok, All, arith,
  append_assoc, append-nil,
}
use infrawright_dev.Tfrender.Quoted.RoundTrip.{read_back}
use infrawright_dev.Tfrender.Quoted.{contains_nul, strip_prefix, parse_quoted}
use infrawright_dev.Tfrender.Imports.{
  GeneratedImportPair, keys, max_generated_import_pairs, block_prefix, render_block, render_blocks,
  join, expect_literal, parse_block, expect_separator, parse_loop,
}

-- Neither the key nor the import ID holds a NUL.
pub record IsClean (p : GeneratedImportPair) : Type 0 where
  pub key : contains_nul p.key ≡ false
  pub import_id : contains_nul p.import_id ≡ false

strip_prefix-append : (p t : Text) → strip_prefix p (p ++ t) ≡ some t
unfolding strip_prefix
strip_prefix-append [] t = refl
strip_prefix-append (c ∷ p) t = ground (arith, strip_prefix-append p t)

expect_literal-append : (p t : Text) → expect_literal p (p ++ t) ≡ ok t
unfolding expect_literal
expect_literal-append p t = rw (strip_prefix-append p t, expect_literal)

-- What stands behind the key of a block.
abbrev behind_key : Text → Text → Text
behind_key id rest = codes "]\n  id = " ++ (id ++ (codes "\n}\n" ++ rest))

parse_block-parts :
    (prefix key id : Text) (p : GeneratedImportPair) (rest : Text)
    → ((r : Text) → parse_quoted (key ++ r) ≡ ok (p.key, r))
    → ((r : Text) → parse_quoted (id ++ r) ≡ ok (p.import_id, r))
    → parse_block prefix (prefix ++ (key ++ behind_key id rest)) ≡ ok (p, rest)
unfolding parse_block
parse_block-parts prefix key id p rest hk hi = rw (
  expect_literal-append prefix (key ++ behind_key id rest),
  hk (behind_key id rest),
  hi (codes "\n}\n" ++ rest),
)

behind_key-append :
    (a key id rest : Text)
    → (a ++ (key ++ behind_key id [])) ++ rest ≡ a ++ (key ++ behind_key id rest)
behind_key-append a key id rest = simp append_assoc

-- A block that is rendered is read back, whatever stands behind it.
parse_block-render_block :
    (resource_type : Text) (p : GeneratedImportPair)
    → IsClean p
    → (block : Text) × (render_block resource_type p ≡ ok (b'i' ∷ block))
      × ((rest : Text)
          → parse_block (block_prefix resource_type) (b'i' ∷ (block ++ rest)) ≡ ok (p, rest))
unfolding render_block block_prefix
parse_block-render_block resource_type p h =
    let (key, writes_key, reads_key) = read_back p.key h.key in
    let (id, writes_id, reads_id) = read_back p.import_id h.import_id in
    let front =
      codes "mport {\n  to = module."
      ++ (resource_type ++ (codes "." ++ (resource_type ++ codes ".this["))) in
    (
      front ++ (key ++ behind_key id []),
      rw (writes_key, writes_id) refl,
      λ rest.
          ap (λ t. parse_block (b'i' ∷ front) (b'i' ∷ t)) (behind_key-append front key id rest)
          ∙ parse_block-parts (b'i' ∷ front) key id p rest reads_key reads_id,
    )

-- One round of the loop.
parse_loop-parse_block :
    (fuel : ℕ) (prefix : Text) (pairs : List GeneratedImportPair) (c : ℕ) (cs rest next : Text)
    (p : GeneratedImportPair)
    → parse_block prefix (c ∷ cs) ≡ ok (p, rest)
    → member p.key (keys pairs) ≡ false
    → length pairs < max_generated_import_pairs
    → expect_separator rest ≡ ok next
    → parse_loop (suc fuel) prefix pairs (c ∷ cs) ≡ parse_loop fuel prefix (pairs ++ p ∷ []) next
unfolding parse_loop
parse_loop-parse_block fuel prefix pairs c cs rest next p reads fresh room sep =
    rw (reads, fresh, leb_of_lt, sep) refl
  where
    leb_of_lt : leb max_generated_import_pairs (length pairs) ≡ false
    leb_of_lt = ground arith

keys-append : (xs ys : List GeneratedImportPair) → keys (xs ++ ys) ≡ keys xs ++ keys ys
keys-append [] ys = refl
keys-append (x ∷ xs) ys = ap (λ l. x.key ∷ l) (keys-append xs ys)

parse_loop-nil :
    (fuel : ℕ) (prefix : Text) (pairs : List GeneratedImportPair)
    → 0 < fuel
    → parse_loop fuel prefix pairs [] ≡ ok pairs
unfolding parse_loop
parse_loop-nil zero prefix pairs h = elim h [ ]
parse_loop-nil (suc fuel) prefix pairs h = refl

-- One round at a rendered block, with `rest` behind it.
parse_loop_round :
    (resource_type block rest next : Text) (q : GeneratedImportPair)
    (qs pairs : List GeneratedImportPair) (fuel : ℕ)
    → ((r : Text) → parse_block (block_prefix resource_type) (b'i' ∷ (block ++ r)) ≡ ok (q, r))
    → is_distinct (keys (pairs ++ q ∷ qs)) ≡ true
    → length (pairs ++ q ∷ qs) ≤ max_generated_import_pairs
    → expect_separator rest ≡ ok next
    → parse_loop (suc fuel) (block_prefix resource_type) pairs (b'i' ∷ (block ++ rest))
      ≡ parse_loop fuel (block_prefix resource_type) (pairs ++ q ∷ []) next
parse_loop_round resource_type block rest next q qs pairs fuel reads distinct bound =
    parse_loop-parse_block fuel (block_prefix resource_type) pairs b'i' (block ++ rest) rest next q
      (reads rest)
      (is_distinct-append-cons (keys pairs) q.key (keys qs) (rw keys-append at distinct))
      (omega (arith, length-append pairs (q ∷ qs)))

-- The loop over the blocks of a list that is not empty.
pub parse_loop-render_blocks :
    (resource_type : Text) (q : GeneratedImportPair) (qs pairs : List GeneratedImportPair)
    (fuel : ℕ)
    → All IsClean (q ∷ qs)
    → is_distinct (keys (pairs ++ q ∷ qs)) ≡ true
    → length (pairs ++ q ∷ qs) ≤ max_generated_import_pairs
    → length (q ∷ qs) < fuel
    → (b : Text) × (bs : List Text) × (render_blocks resource_type (q ∷ qs) ≡ ok ((b'i' ∷ b) ∷ bs))
      × (parse_loop fuel (block_prefix resource_type) pairs (join (codes "\n") ((b'i' ∷ b) ∷ bs))
          ≡ ok (pairs ++ q ∷ qs))
unfolding render_blocks join expect_separator
parse_loop-render_blocks resource_type q qs pairs zero clean distinct bound h = elim h [ ]
parse_loop-render_blocks resource_type q [] pairs (suc fuel) clean distinct bound h =
    let (block, writes, reads) = parse_block-render_block resource_type q clean.0 in
    (
      block,
      [],
      rw writes refl,
      ap (λ t. parse_loop (suc fuel) (block_prefix resource_type) pairs (b'i' ∷ t))
            (sym (append-nil block))
          ∙ parse_loop_round resource_type block [] [] q [] pairs fuel reads distinct bound refl
          ∙ parse_loop-nil fuel (block_prefix resource_type) (pairs ++ q ∷ []) (omega arith),
    )
parse_loop-render_blocks resource_type q (r ∷ qs) pairs (suc fuel) clean distinct bound h =
    let (block, writes, reads) = parse_block-render_block resource_type q clean.0 in
    let regroup = append_assoc pairs (q ∷ []) (r ∷ qs) in
    let (b, bs, writes_rest, reads_rest) =
      parse_loop-render_blocks resource_type r qs (pairs ++ q ∷ []) fuel clean.1
        (rw regroup distinct) (rw regroup bound) (omega arith) in
    (
      block,
      (b'i' ∷ b) ∷ bs,
      rw (writes, writes_rest) refl,
      parse_loop_round resource_type block _ _ q (r ∷ qs) pairs fuel reads distinct bound refl
          ∙ reads_rest
          ∙ ap ok regroup,
    )
