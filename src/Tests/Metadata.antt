-- ===== src/Tests/Metadata.antt =====
-- A policy with an exact entry, an alias of it and a wildcard.
use infrawright_dev.Base.{
  false, ok, List, [], ◌∷◌, if◌then◌else◌, Text, codes, text_eq, some, ◌≡◌, refl,
}
use infrawright_dev.Assessment.Paths.{key, index, PlanPath}
use infrawright_dev.Metadata.DriftPolicy.{
  name, position, PolicyEntry, DriftPolicy, entries_of, at_order, policy_selector_matches,
  segment_matches, tolerates_plan_path,
}
use infrawright_dev.Metadata.Exact.{is_safe}
use infrawright_dev.Metadata.Tolerance.{first_match}
use infrawright_dev.Metadata.FirstMatch.{AllSafe, mark, tolerates_plan_path-first_match}
use infrawright_dev.Metadata.PolicyPath.{parse_policy_path}
use infrawright_dev.Canonjson.Decimals.{is_digit}
use infrawright_dev.Metadata.PolicyPath.{is_letter, all_digits}
use infrawright_dev.Metadata.ParsedPath.{Field, IsField, any_item, index_item, key_item}
use infrawright_dev.Metadata.WrittenPath.{write_path, path_segments, parse_policy_path-write_path}
use infrawright_dev.Metadata.Marks.{tolerates_plan_path-tolerates_plan_path}

abbrev rule : Text
rule = codes "zia_rule"

abbrev some_entries : List PolicyEntry
some_entries =
    record { id = 4; selector = name (codes "urls") ∷ position 0 ∷ [] }
    ∷ record { id = 5; selector = name (codes "urls") ∷ name (codes "*") ∷ [] }
    ∷ record { id = 6; selector = name (codes "urls") ∷ position 1 ∷ [] }
    ∷ []

abbrev policy : DriftPolicy
policy = record {
  sources = record { resource_type = rule; entries = some_entries } ∷ [];
  matched = [];
}

abbrev second_url : PlanPath
second_url = key (codes "urls") ∷ index 1 ∷ []

some_entries-AllSafe : AllSafe (entries_of policy.sources rule)
unfolding entries_of is_safe text_eq
some_entries-AllSafe = (refl, (refl, (refl, tt)))

-- The wildcard stands before the exact entry and is the one marked.
first_match-second_url :
    first_match 0 some_entries second_url
    ≡ some (at_order (record { id = 5; selector = name (codes "urls") ∷ name (codes "*") ∷ [] }) 1)
unfolding first_match policy_selector_matches segment_matches text_eq
first_match-second_url = refl

tolerates_plan_path-first_match_example :
    tolerates_plan_path policy rule second_url (codes "update") ≡ (
      if text_eq (codes "update") (codes "update")
      then mark policy (first_match 0 (entries_of policy.sources rule) second_url)
      else (false, policy))
tolerates_plan_path-first_match_example =
    tolerates_plan_path-first_match policy rule second_url (codes "update") some_entries-AllSafe

tolerates_plan_path-tolerates_plan_path_example :
    (tolerates_plan_path
      (tolerates_plan_path policy rule second_url (codes "update")).1
      rule
      second_url
      (codes "update")).0
    ≡ (tolerates_plan_path policy rule second_url (codes "update")).0
tolerates_plan_path-tolerates_plan_path_example =
    tolerates_plan_path-tolerates_plan_path policy rule rule second_url second_url (codes "update")
      (codes "update")

-- urls[3].name["a.b"]
abbrev path_text : Text
path_text = codes "urls[3].name[\"a.b\"]"

parse_policy_path-path_text :
    parse_policy_path path_text
    ≡ ok (name (codes "urls") ∷ position 3 ∷ name (codes "name") ∷ name (codes "a.b") ∷ [])
unfolding parse_policy_path
parse_policy_path-path_text = refl

abbrev urls_field : Field
urls_field = record { first = 117; letters = codes "rls"; items = index_item 51 [] ∷ any_item ∷ [] }

abbrev name_field : Field
name_field = record { first = 110; letters = codes "ame"; items = key_item (codes "a.\"b\\") ∷ [] }

urls_field-IsField : IsField urls_field
unfolding is_letter is_digit all_digits
urls_field-IsField = record {
  starts = refl;
  names = (refl, (refl, (refl, tt)));
  selects = (refl, (tt, tt));
}

name_field-IsField : IsField name_field
unfolding is_letter is_digit
name_field-IsField = record {
  starts = refl;
  names = (refl, (refl, (refl, tt)));
  selects = (tt, tt);
}

write_path-name_field :
    write_path urls_field (name_field ∷ []) ≡ codes "urls[3][*].name[\"a.\\\"b\\\\\"]"
unfolding write_path
write_path-name_field = refl

parse_policy_path-write_path_example :
    parse_policy_path (write_path urls_field (name_field ∷ []))
    ≡ ok (path_segments (urls_field ∷ name_field ∷ []))
parse_policy_path-write_path_example =
    parse_policy_path-write_path urls_field (name_field ∷ []) urls_field-IsField
      (name_field-IsField, tt)
