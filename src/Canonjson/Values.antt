-- ===== src/Canonjson/Values.antt =====
-- JSON values as go/internal/canonjson decodes them. A `nil` of type `any` is null. An object is the
-- list of its members, in any order and with each key once; a number is its text.
use infrawright_dev.Base.{Bool, List, [], ◌∷◌, ◌++◌, if◌then◌else◌, Text, text_eq, text_lt, member}
use infrawright_dev.Base.Sorting.{stable_sort}

mutual
  pub data Json : Type 0 where
    null : Json
    boolean : Bool → Json
    number : Text → Json
    string : Text → Json
    array : Items → Json
    object : Fields → Json

  pub data Items : Type 0 where
    no_items : Items
    item : Json → Items → Items

  pub data Fields : Type 0 where
    no_fields : Fields
    field : Text → Json → Fields → Fields

abbrev pub items : Items → List Json
items no_items = []
items (item v vs) = v ∷ items vs

-- `object[key]`, null for a key that is missing.
unfoldable pub lookup : Text → Fields → Json
lookup key no_fields = null
lookup key (field k v rest) = if text_eq key k then v else lookup key rest

abbrev pub field_keys : Fields → List Text
field_keys no_fields = []
field_keys (field k v rest) = k ∷ field_keys rest

-- A list of keys as the set of a Go map: each key once.
unfoldable pub key_set : List Text → List Text
key_set [] = []
key_set (k ∷ ks) = let rest = key_set ks in if member k rest then rest else k ∷ rest

-- `SortedStrings` of the keys of two objects.
unfoldable pub all_keys : Fields → Fields → List Text
unfolding key_set
all_keys before after = stable_sort text_lt (key_set (field_keys before ++ field_keys after))

-- The two equalities of go/internal/canonjson/equality.go, which the code of other packages calls:
-- `JSONEqual` and `TerraformJSONExactlyEqual`.
pub record Equality : Type 0 where
  pub json_equal : Json → Json → Bool
  pub exactly_equal : Json → Json → Bool
