-- ===== src/Tests/Imports.antt =====
-- Import files with quotes, escapes and renames.
use infrawright_dev.Base.Sorting.{stable_sort}
use infrawright_dev.Base.{
  ◌≡◌, ◌≢◌, refl, true, false, List, [], ◌∷◌, ◌++◌, Text, codes, text_eq, text_lt, member,
  is_distinct, has_duplicate, All, some, ok, err, arith,
}
use infrawright_dev.Tfrender.Quoted.RoundTrip.{parse_quoted-render_quoted}
use infrawright_dev.Tfrender.Quoted.{no_fuel, contains_nul, render_quoted, parse_quoted}
use infrawright_dev.Tfrender.Imports.Canonical.{
  IsRenderable, parse_generated_imports-render_generated_imports,
  parse_generated_imports-IsCanonical,
}
use infrawright_dev.Tfrender.Imports.Fuel.{parse_generated_imports-ne-no_fuel}
use infrawright_dev.Tfrender.Imports.{
  GeneratedImportPair, keys, key_lt, is_import_resource_type, block_prefix, join,
  render_generated_imports, parse_loop, parse_generated_imports,
}
use infrawright_dev.Tfrender.Moves.Safety.{IsSafe, derive_import_moves-IsSafe}
use infrawright_dev.Tfrender.Moves.Unique.{sources, destinations, derive_import_moves-is_distinct}
use infrawright_dev.Tfrender.Moves.Complete.{IsReported, derive_import_moves-IsReported}
use infrawright_dev.Tfrender.Moves.{
  ImportMoveDerivation, id_of, import_ids, candidates_of, from_count, is_key_swap,
  suppression_reason, moves_of, suppressions_of, move_lt, derive_from, derive_import_moves,
}

abbrev awkward : Text
awkward = codes "a\"${b}\\%%{c\n$"

awkward_clean : contains_nul awkward ≡ false
unfolding contains_nul
awkward_clean = refl

render_quoted-awkward : render_quoted awkward ≡ ok (codes "\"a\\\"$${b}\\\\%%%{c\\n$\"")
unfolding render_quoted
render_quoted-awkward = refl

parse_quoted-render_quoted_example :
    (t : Text) × (render_quoted awkward ≡ ok t)
    × (parse_quoted (t ++ codes "]") ≡ ok (awkward, codes "]"))
parse_quoted-render_quoted_example = parse_quoted-render_quoted awkward (codes "]") awkward_clean

abbrev pair : Text → Text → GeneratedImportPair
pair key id = record { key = key; import_id = id }

abbrev resource_type : Text
resource_type = codes "zia_rule"

abbrev some_pairs : List GeneratedImportPair
some_pairs = pair (codes "b") (codes "2") ∷ pair awkward (codes "1") ∷ []

some_pairs-IsRenderable : IsRenderable resource_type some_pairs
unfolding is_import_resource_type contains_nul is_distinct text_eq
some_pairs-IsRenderable = record {
  identifier = refl;
  clean = (record { key = refl; import_id = refl }, (record { key = refl; import_id = refl }, tt));
  distinct = refl;
  bound = omega arith;
}

parse_generated_imports-render_generated_imports_example :
    (t : Text) × (render_generated_imports resource_type some_pairs ≡ ok t)
    × (parse_generated_imports resource_type t ≡ ok (stable_sort key_lt some_pairs))
parse_generated_imports-render_generated_imports_example =
    parse_generated_imports-render_generated_imports resource_type some_pairs
      some_pairs-IsRenderable

abbrev old_text : Text
old_text =
    codes
      "import {\n  to = module.zia_rule.zia_rule.this[\"a\"]\n  id = \"1\"\n}\n\nimport {\n  to = module.zia_rule.zia_rule.this[\"b\"]\n  id = \"2\"\n}\n"

abbrev new_text : Text
new_text =
    codes
      "import {\n  to = module.zia_rule.zia_rule.this[\"b\"]\n  id = \"2\"\n}\n\nimport {\n  to = module.zia_rule.zia_rule.this[\"c\"]\n  id = \"1\"\n}\n"

abbrev old_pairs : List GeneratedImportPair
old_pairs = pair (codes "a") (codes "1") ∷ pair (codes "b") (codes "2") ∷ []

abbrev new_pairs : List GeneratedImportPair
new_pairs = pair (codes "b") (codes "2") ∷ pair (codes "c") (codes "1") ∷ []

abbrev renamed : ImportMoveDerivation
renamed = record {
  moves = record { old_key = codes "a"; new_key = codes "c" } ∷ [];
  suppressed = [];
}

parser : Unit {0}
unfolding parse_generated_imports parse_loop render_generated_imports parse_quoted render_quoted
    block_prefix join is_import_resource_type has_duplicate stable_sort text_lt text_eq
parser = tt

parse-old_text : parse_generated_imports resource_type old_text ≡ ok old_pairs
unfolding parser
parse-old_text = refl

parse-new_text : parse_generated_imports resource_type new_text ≡ ok new_pairs
unfolding parser
parse-new_text = refl

derive-renamed : derive_import_moves resource_type old_text new_text ≡ ok renamed
unfolding parser derive_import_moves derive_from candidates_of import_ids from_count
    suppression_reason is_key_swap id_of moves_of suppressions_of member move_lt
derive-renamed = refl

parse_generated_imports-IsCanonical_example :
    (render_generated_imports resource_type old_pairs ≡ ok old_text)
    × (is_distinct (keys old_pairs) ≡ true)
parse_generated_imports-IsCanonical_example =
    parse_generated_imports-IsCanonical resource_type old_text old_pairs parse-old_text

parse_generated_imports-ne-no_fuel_example :
    parse_generated_imports resource_type (codes "import {\n  to") ≢ err no_fuel
parse_generated_imports-ne-no_fuel_example =
    parse_generated_imports-ne-no_fuel resource_type (codes "import {\n  to")

derive_import_moves-IsSafe_example : All (IsSafe old_pairs new_pairs) renamed.moves
derive_import_moves-IsSafe_example =
    derive_import_moves-IsSafe resource_type old_text new_text parse-old_text parse-new_text
      derive-renamed

derive_import_moves-is_distinct_example :
    (is_distinct (sources renamed.moves) ≡ true) × (is_distinct (destinations renamed.moves) ≡ true)
derive_import_moves-is_distinct_example =
    derive_import_moves-is_distinct resource_type old_text new_text derive-renamed

a_not_c : codes "a" ≢ codes "c"
a_not_c h = ground arith

id_of-a : id_of old_pairs (codes "a") ≡ some (codes "1")
unfolding id_of text_eq
id_of-a = refl

id_of-c : id_of new_pairs (codes "c") ≡ some (codes "1")
unfolding id_of text_eq
id_of-c = refl

derive_import_moves-IsReported_example :
    IsReported (codes "a") (codes "c") (codes "1") renamed.moves renamed.suppressed
derive_import_moves-IsReported_example =
    derive_import_moves-IsReported resource_type old_text new_text (codes "a") (codes "c")
      (codes "1") parse-old_text parse-new_text derive-renamed a_not_c id_of-a id_of-c
