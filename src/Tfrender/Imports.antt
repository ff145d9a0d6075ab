-- ===== src/Tfrender/Imports.antt =====
-- go/internal/tfrender/import_moves.go: `RenderGeneratedImports` and `ParseGeneratedImports`.
pub mod RoundTrip
pub mod Canonical
pub mod Fuel
use infrawright_dev.Base.Sorting.{stable_sort}
use infrawright_dev.Base.{
  ℕ, zero, suc, ◌≡◌, Bool, true, false, not, ◌&&◌, ◌||◌, List, [], ◌∷◌, ◌++◌, map, leb, ◌==◌,
  if◌then◌else◌, length, Text, codes, text_eq, text_lt, member, has_duplicate, Option, none, some,
  Result, ok, err, ◌>>=◌, ◌>>◌,
}
use infrawright_dev.Tfrender.Quoted.{
  Failure, invalid_import_resource_type, import_move_limit_exceeded, invalid_generated_imports,
  no_fuel, render_quoted, strip_prefix, parse_quoted,
}

-- `maxGeneratedImportPairs`
abbrev pub max_generated_import_pairs : ℕ
max_generated_import_pairs = 50_000

pub record GeneratedImportPair : Type 0 where
  pub key : Text
  pub import_id : Text

abbrev pub keys : List GeneratedImportPair → List Text
keys = map (λ p. p.key)

abbrev pub require : Bool → Failure → Result Failure (Unit {0})
require true why = ok tt
require false why = err why

abbrev within : ℕ → ℕ → ℕ → Bool
within lo hi c = leb lo c && leb c hi

is_lower : ℕ → Bool
is_lower c = within b'a' b'z' c

-- `[a-z0-9_]*` to the end of the text.
is_identifier_tail : Text → Bool
unfolding is_lower
is_identifier_tail [] = true
is_identifier_tail (c ∷ cs) =
    (is_lower c || within b'0' b'9' c || c == b'_') && is_identifier_tail cs

-- `importResourceTypePattern`
unfoldable pub is_import_resource_type : Text → Bool
unfolding is_identifier_tail
is_import_resource_type [] = false
is_import_resource_type (c ∷ cs) = is_lower c && is_identifier_tail cs

abbrev pub require_import_resource_type : Text → Result Failure (Unit {0})
require_import_resource_type resource_type =
    require (is_import_resource_type resource_type) invalid_import_resource_type

-- The text of a block up to its key.
unfoldable pub block_prefix : Text → Text
block_prefix resource_type =
    codes "import {\n  to = module."
    ++ (resource_type ++ (codes "." ++ (resource_type ++ codes ".this[")))

unfoldable pub render_block : Text → GeneratedImportPair → Result Failure Text
render_block resource_type pair = do
  key ← render_quoted pair.key
  id ← render_quoted pair.import_id
  ok (block_prefix resource_type ++ (key ++ (codes "]\n  id = " ++ (id ++ codes "\n}\n"))))

unfoldable pub render_blocks : Text → List GeneratedImportPair → Result Failure (List Text)
unfolding render_block
render_blocks resource_type [] = ok []
render_blocks resource_type (p ∷ ps) = do
  block ← render_block resource_type p
  blocks ← render_blocks resource_type ps
  ok (block ∷ blocks)

-- `strings.Join`
unfoldable pub join : Text → List Text → Text
join sep [] = []
join sep (x ∷ []) = x
join sep (x ∷ y ∷ ys) = x ++ (sep ++ join sep (y ∷ ys))

abbrev pub key_lt : GeneratedImportPair → GeneratedImportPair → Bool
key_lt a b = text_lt a.key b.key

unfoldable pub render_generated_imports : Text → List GeneratedImportPair → Result Failure Text
unfolding render_blocks
render_generated_imports resource_type pairs = do
  require_import_resource_type resource_type
  require (leb (length pairs) max_generated_import_pairs) import_move_limit_exceeded
  require (not (has_duplicate [] (keys pairs))) invalid_generated_imports
  blocks ← render_blocks resource_type (stable_sort key_lt pairs)
  ok (join (codes "\n") blocks)

unfoldable pub expect_literal : Text → Text → Result Failure Text
unfolding strip_prefix
expect_literal literal text = elim (strip_prefix literal text) [
  | some rest ↦ ok rest
  | none ↦ err invalid_generated_imports
]

-- One block, and what stands behind it.
unfoldable pub parse_block : Text → Text → Result Failure (GeneratedImportPair × Text)
unfolding expect_literal
parse_block prefix text = do
  at_key ← expect_literal prefix text
  (key, behind_key) ← parse_quoted at_key
  at_id ← expect_literal (codes "]\n  id = ") behind_key
  (id, behind_id) ← parse_quoted at_id
  rest ← expect_literal (codes "\n}\n") behind_id
  ok (record { key = key; import_id = id }, rest)

-- The line break between two blocks.
unfoldable pub expect_separator : Text → Result Failure Text
unfolding expect_literal
expect_separator [] = ok []
expect_separator (c ∷ cs) = expect_literal (codes "\n") (c ∷ cs)

-- The loop of `ParseGeneratedImports`. The map `seen` holds the keys of `pairs`.
unfoldable pub parse_loop :
    ℕ → Text → List GeneratedImportPair → Text → Result Failure (List GeneratedImportPair)
unfolding parse_block expect_separator
parse_loop zero prefix pairs text = err no_fuel
parse_loop (suc fuel) prefix pairs [] = ok pairs
parse_loop (suc fuel) prefix pairs (c ∷ cs) = do
  (pair, rest) ← parse_block prefix (c ∷ cs)
  require (not (member pair.key (keys pairs))) invalid_generated_imports
  require (not (leb max_generated_import_pairs (length pairs))) import_move_limit_exceeded
  next ← expect_separator rest
  parse_loop fuel prefix (pairs ++ pair ∷ []) next

unfoldable pub parse_generated_imports : Text → Text → Result Failure (List GeneratedImportPair)
parse_generated_imports resource_type [] = do require_import_resource_type resource_type; ok []
parse_generated_imports resource_type (c ∷ cs) = do
  require_import_resource_type resource_type
  pairs ← parse_loop (suc (length (c ∷ cs))) (block_prefix resource_type) [] (c ∷ cs)
  rendered ← render_generated_imports resource_type pairs
  require (text_eq rendered (c ∷ cs)) invalid_generated_imports
  ok pairs
