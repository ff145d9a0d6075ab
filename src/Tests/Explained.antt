-- ===== src/Tests/Explained.antt =====
-- An update that turns the members of a set round, under the equalities of go/internal/canonjson.
use infrawright_dev.Base.Sorting.{stable_sort}
use infrawright_dev.Base.{
  Bool, true, false, [], ◌∷◌, ◌≡◌, refl, ap, Text, codes, text_eq, text_lt, member, none,
}
use infrawright_dev.Canonjson.Alike.{Alike, terraform_json_exactly_equal-Alike_iff}
use infrawright_dev.Canonjson.Equality.{Floats, equalities, terraform_json_exactly_equal}
use infrawright_dev.Canonjson.Values.{
  Json, null, string, array, object, no_items, item, no_fields, field, all_keys,
}
use infrawright_dev.Assessment.Explained.{OnlyReordered, explained_by_set_equality-OnlyReordered}
use infrawright_dev.Assessment.Sets.{set_membership, multiset_delta}
use infrawright_dev.Assessment.Update.{Change, explained_by_set_equality}

-- Floats that are their texts.
abbrev text_floats : Floats
text_floats = record {
  Float = Text;
  parse_float = λ t. t;
  float_eq = λ a b. text_eq a b;
  as_integer = λ a. none;
}

abbrev is_a : Json → Bool
is_a (string t) = text_eq t (codes "a")
is_a _ = false

is_a-Alike : (v w : Json) → Alike v w → is_a v ≡ is_a w
unfolding Alike
is_a-Alike (string a) (string b) h = ap (λ t. text_eq t (codes "a")) h
is_a-Alike (string a) _ h = absurd h
is_a-Alike _ (string b) h = absurd h
is_a-Alike _ _ h = refl

is_a-respects : (v w : Json) → terraform_json_exactly_equal v w ≡ true → is_a v ≡ is_a w
is_a-respects v w h = is_a-Alike v w ((terraform_json_exactly_equal-Alike_iff v w).0 h)

abbrev with_urls : Text → Text → Json
with_urls first second =
    object
      (field (codes "urls") (array (item (string first) (item (string second) no_items))) no_fields)

abbrev turned_round : Change
turned_round = record {
  actions = codes "update" ∷ [];
  importing = null;
  before = with_urls (codes "a") (codes "b");
  after = with_urls (codes "b") (codes "a");
  before_sensitive = null;
  after_sensitive = null;
  after_unknown = null;
  before_identity = null;
  after_identity = null;
}

turned_round-explained :
    explained_by_set_equality (equalities text_floats) turned_round (codes "urls" ∷ []) ≡ true
unfolding explained_by_set_equality terraform_json_exactly_equal stable_sort text_lt all_keys member
    set_membership multiset_delta
turned_round-explained = refl

explained_by_set_equality-OnlyReordered_example :
    OnlyReordered
      (equalities text_floats)
      is_a
      is_a-respects
      turned_round.before
      turned_round.after
      (codes "urls" ∷ [])
explained_by_set_equality-OnlyReordered_example =
    explained_by_set_equality-OnlyReordered (equalities text_floats) is_a is_a-respects turned_round
      (codes "urls" ∷ []) turned_round-explained
