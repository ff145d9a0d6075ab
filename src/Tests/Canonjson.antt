-- ===== src/Tests/Canonjson.antt =====
-- Numbers and objects that TerraformJSONExactlyEqual takes for the same.
use infrawright_dev.Base.Int.{pos, negsuc}
use infrawright_dev.Base.Sorting.{stable_sort}
use infrawright_dev.Canonjson.Alike.{Alike, terraform_json_exactly_equal-Alike_iff}
use infrawright_dev.Canonjson.Decimals.{Groups, match_decimal}
use infrawright_dev.Canonjson.Denotes.{SameNumber}
use infrawright_dev.Canonjson.Equality.{terraform_json_exactly_equal}
use infrawright_dev.Canonjson.Equivalence.{
  IsMapped, terraform_json_exactly_equal_comm, terraform_json_exactly_equal_trans,
}
use infrawright_dev.Canonjson.Exact.{terraform_json_exactly_equal-SameNumber_iff}
use infrawright_dev.Canonjson.Values.{Json, boolean, number, object, no_fields, field}
use infrawright_dev.Base.{true, false, [], ◌≡◌, ◌↔◌, refl, Text, codes, some, text_eq, text_lt}

abbrev plain : Text
plain = codes "1.50"

abbrev scientific : Text
scientific = codes "15e-1"

abbrev plain_groups : Groups
plain_groups = record {
  negative = false;
  integer_part = codes "1";
  fraction = codes "50";
  exponent = pos 0;
}

abbrev scientific_groups : Groups
scientific_groups = record {
  negative = false;
  integer_part = codes "15";
  fraction = [];
  exponent = negsuc 0;
}

match_decimal-plain : match_decimal plain ≡ some plain_groups
unfolding match_decimal
match_decimal-plain = refl

match_decimal-scientific : match_decimal scientific ≡ some scientific_groups
unfolding match_decimal
match_decimal-scientific = refl

terraform_json_exactly_equal-SameNumber_iff_example :
    (terraform_json_exactly_equal (number plain) (number scientific) ≡ true)
    ↔ SameNumber plain_groups scientific_groups
terraform_json_exactly_equal-SameNumber_iff_example =
    terraform_json_exactly_equal-SameNumber_iff plain scientific plain_groups scientific_groups
      match_decimal-plain match_decimal-scientific

abbrev ordered : Json
ordered = object (field (codes "a") (number plain) (field (codes "b") (boolean true) no_fields))

abbrev turned : Json
turned = object (field (codes "b") (boolean true) (field (codes "a") (number scientific) no_fields))

ordered-turned : terraform_json_exactly_equal ordered turned ≡ true
unfolding terraform_json_exactly_equal stable_sort text_lt
ordered-turned = refl

turned-ordered : terraform_json_exactly_equal turned ordered ≡ true
unfolding terraform_json_exactly_equal stable_sort text_lt
turned-ordered = refl

ordered-IsMapped : IsMapped ordered
unfolding IsMapped text_eq
ordered-IsMapped = (refl, (tt, (tt, tt)))

turned-IsMapped : IsMapped turned
unfolding IsMapped text_eq
turned-IsMapped = (refl, (tt, (tt, tt)))

terraform_json_exactly_equal-Alike_iff_example :
    (terraform_json_exactly_equal ordered turned ≡ true) ↔ Alike ordered turned
terraform_json_exactly_equal-Alike_iff_example =
    terraform_json_exactly_equal-Alike_iff ordered turned

terraform_json_exactly_equal_comm_example :
    (terraform_json_exactly_equal ordered ordered ≡ true)
    × (terraform_json_exactly_equal ordered turned ≡ terraform_json_exactly_equal turned ordered)
terraform_json_exactly_equal_comm_example =
    terraform_json_exactly_equal_comm ordered turned ordered-IsMapped turned-IsMapped

terraform_json_exactly_equal_trans_example : terraform_json_exactly_equal ordered ordered ≡ true
terraform_json_exactly_equal_trans_example =
    terraform_json_exactly_equal_trans ordered turned ordered ordered-turned turned-ordered
