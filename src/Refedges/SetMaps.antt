-- ===== src/Refedges/SetMaps.antt =====
-- go/internal/refedges/refedges.go: a `map[string]map[string]bool` as a list of keys with their sets,
-- the first entry of a key being the one that counts, and its keys and sets in the order of a walk.
use infrawright_dev.Base.Sorting.{stable_sort}
use infrawright_dev.Base.SortedKeys.{member-stable_sort, is_distinct-stable_sort}
use infrawright_dev.Base.{
  true, ◌||◌, ◌&&◌, List, [], ◌∷◌, map, ◌≡◌, refl, sym, ◌∙◌, ap, arith, if◌then◌else◌, Text,
  text_eq, text_eq_iff, text_lt, member, is_distinct,
}

pub record Entry : Type 0 where
  pub key : Text
  pub values : List Text

abbrev pub SetMap : Type 0
SetMap = List Entry

-- `m[key]`, the empty set for a key that is missing.
unfoldable pub targets : SetMap → Text → List Text
targets [] key = []
targets (e ∷ m) key = if text_eq key e.key then e.values else targets m key

-- `set[value] = true`.
unfoldable pub add_name : Text → List Text → List Text
add_name value set = if member value set then set else value ∷ set

unfoldable pub add_to_set : SetMap → Text → Text → SetMap
unfolding add_name
add_to_set [] key value = record { key = key; values = value ∷ [] } ∷ []
add_to_set (e ∷ m) key value =
    if text_eq key e.key
    then record e { values = add_name value e.values } ∷ m
    else e ∷ add_to_set m key value

-- `SortedStrings` of the names of a set.
unfoldable pub sorted : List Text → List Text
sorted = stable_sort text_lt

-- `nodes`: the keys and the members of their sets, each once.
unfoldable pub add_names : List Text → List Text → List Text
unfolding add_name
add_names [] nodes = nodes
add_names (t ∷ ts) nodes = add_names ts (add_name t nodes)

unfoldable pub node_set : SetMap → List Text → List Text
unfolding add_names add_name
node_set [] nodes = nodes
node_set (e ∷ m) nodes = node_set m (add_names e.values (add_name e.key nodes))

map_self : (xs : List Text) → map (λ x. x) xs ≡ xs
map_self [] = refl
map_self (x ∷ xs) = ap (x ∷◌) (map_self xs)

pub member-sorted : (k : Text) (xs : List Text) → member k (sorted xs) ≡ member k xs
unfolding sorted
member-sorted k xs =
    ap (member k) (sym (map_self (stable_sort text_lt xs)))
    ∙ member-stable_sort text_lt (λ x. x) k xs
    ∙ ap (member k) (map_self xs)

pub is_distinct-sorted : (xs : List Text) → is_distinct (sorted xs) ≡ is_distinct xs
unfolding sorted
is_distinct-sorted xs =
    ap is_distinct (sym (map_self (stable_sort text_lt xs)))
    ∙ is_distinct-stable_sort text_lt (λ x. x) xs
    ∙ ap is_distinct (map_self xs)

pub member-add_name :
    (k v : Text) (set : List Text) → member k (add_name v set) ≡ (text_eq k v || member k set)
unfolding add_name member
member-add_name k v set = ground (arith, text_eq_iff k v)

pub targets-add_to_set :
    (m : SetMap) (key value k d : Text)
    → member d (targets (add_to_set m key value) k)
      ≡ ((text_eq k key && text_eq d value) || member d (targets m k))
unfolding targets add_to_set member
targets-add_to_set [] key value k d = ground arith
targets-add_to_set (e ∷ m) key value k d = ground (
  arith,
  targets-add_to_set m key value k d,
  text_eq_iff k key,
  text_eq_iff k e.key,
  text_eq_iff key e.key,
  member-add_name d value e.values,
)

pub member-add_names :
    (k : Text) (ts nodes : List Text)
    → member k (add_names ts nodes) ≡ (member k ts || member k nodes)
unfolding add_names member
member-add_names k [] nodes = refl
member-add_names k (t ∷ ts) nodes =
    ground (arith, member-add_names k ts (add_name t nodes), member-add_name k t nodes)

pub is_distinct-add_names :
    (ts nodes : List Text) → is_distinct nodes ≡ true → is_distinct (add_names ts nodes) ≡ true
unfolding add_names add_name is_distinct
is_distinct-add_names [] nodes h = h
is_distinct-add_names (t ∷ ts) nodes h =
    is_distinct-add_names ts (add_name t nodes) (ground (arith, h))

node_set-member :
    (m : SetMap) (nodes : List Text) (k : Text)
    → member k nodes ≡ true
    → member k (node_set m nodes) ≡ true
unfolding node_set
node_set-member [] nodes k h = h
node_set-member (e ∷ m) nodes k h = node_set-member m _ k (
    ground
      (arith, member-add_names k e.values (add_name e.key nodes), member-add_name k e.key nodes))

-- A name that has a target is a node.
pub node_set-source :
    (m : SetMap) (nodes : List Text) (k d : Text)
    → member d (targets m k) ≡ true
    → member k (node_set m nodes) ≡ true
unfolding node_set targets member
node_set-source [] nodes k d h = cc
node_set-source (e ∷ m) nodes k d h = ground (
  arith,
  node_set-source m (add_names e.values (add_name e.key nodes)) k d,
  node_set-member m (add_names e.values (add_name e.key nodes)) k,
  member-add_names k e.values (add_name e.key nodes),
  member-add_name k e.key nodes,
)

-- So is each target.
pub node_set-target :
    (m : SetMap) (nodes : List Text) (k d : Text)
    → member d (targets m k) ≡ true
    → member d (node_set m nodes) ≡ true
unfolding node_set targets member
node_set-target [] nodes k d h = cc
node_set-target (e ∷ m) nodes k d h = ground (
  arith,
  node_set-target m (add_names e.values (add_name e.key nodes)) k d,
  node_set-member m (add_names e.values (add_name e.key nodes)) d,
  member-add_names d e.values (add_name e.key nodes),
)
