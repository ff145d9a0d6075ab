-- ===== src/Metadata/ParsedPath.antt =====
-- Policy paths as they are written, and what `parsePolicyPath` reads.
use infrawright_dev.Canonjson.Decimals.{is_digit}
use infrawright_dev.Metadata.DriftPolicy.{PolicySegment, name, Selector, policy_wildcard}
use infrawright_dev.Metadata.Escapes.{
  escape, selector_end_inside, unquote_selector-escape, selector_end-escape, inner_text-quote,
}
use infrawright_dev.Metadata.PolicyPath.{
  unquoted, quote_step, is_bare, before_text, selector_end, parse_index, all_digits,
  selector_segment, parse_selectors, is_letter, name_rest, parse_segment,
}
use infrawright_dev.Base.{
  ℕ, zero, suc, ◌≤◌, ◌<◌, Bool, true, false, ◌||◌, some, List, [], ◌∷◌, ◌++◌, map, ◌≡◌, refl, ap,
  ◌∙◌, arith, length, length-append, Text, text_eq, All, ok, ◌>>=◌, Bool-cases, and_iff, inl, inr,
}

-- A selector: [*], an index, or a quoted key.
pub data Item : Type 0 where
  any_item : Item
  index_item : ℕ → Text → Item
  key_item : Text → Item

-- The text of a selector, in front of another.
unfoldable pub write_item : Item → Text → Text
unfolding escape
write_item any_item rest = 91 ∷ 42 ∷ 93 ∷ rest
write_item (index_item c cs) rest = 91 ∷ c ∷ cs ++ 93 ∷ rest
write_item (key_item key) rest = 91 ∷ 34 ∷ escape key ++ 34 ∷ 93 ∷ rest

unfoldable pub write_items : List Item → Text
unfolding write_item
write_items [] = []
write_items (w ∷ ws) = write_item w (write_items ws)

abbrev pub IsItem : Item → Type 0
IsItem (index_item c cs) = all_digits (c ∷ cs) ≡ true
IsItem _ = Unit

unfoldable pub item_segment : Item → PolicySegment
unfolding parse_index
item_segment any_item = name policy_wildcard
item_segment (index_item c cs) = parse_index (c ∷ cs)
item_segment (key_item key) = name key

digit-quoting :
    (c : ℕ)
    → is_digit c ≡ true
    → (is_bare 93 unquoted c ≡ false) × (quote_step unquoted c ≡ unquoted)
unfolding is_digit is_bare quote_step
digit-quoting c h = (ground (arith, h), ground (arith, h))

selector_end-digits :
    (cs rest : Text)
    → all_digits cs ≡ true
    → selector_end unquoted (cs ++ 93 ∷ rest) ≡ some (cs, rest)
unfolding selector_end all_digits is_digit
selector_end-digits [] rest h = refl
selector_end-digits (c ∷ cs) rest h =
    let (digit, later) = (and_iff (is_digit c) (all_digits cs)).0 h in
    let (inside, same) = digit-quoting c digit in
    selector_end_inside unquoted c (cs ++ 93 ∷ rest) inside same
    ∙ ap (before_text c) (selector_end-digits cs rest later)

digit_star :
    (c : ℕ) (cs : Text) → all_digits (c ∷ cs) ≡ true → ¬ (text_eq (c ∷ cs) policy_wildcard ≡ true)
unfolding all_digits is_digit text_eq
digit_star c cs h k = ground (arith, h, k)

selector_segment-digits :
    (c : ℕ) (cs : Text)
    → all_digits (c ∷ cs) ≡ true
    → selector_segment (c ∷ cs) ≡ ok (parse_index (c ∷ cs))
unfolding selector_segment
selector_segment-digits c cs h = elim (Bool-cases (text_eq (c ∷ cs) policy_wildcard)) [
  | inl wild ↦ absurd (digit_star c cs h wild)
  | inr plain ↦ rw (plain, h, selector_segment) refl
]

selector_segment-key : (key : Text) → selector_segment (34 ∷ escape key ++ 34 ∷ []) ≡ ok (name key)
unfolding selector_segment
selector_segment-key key =
    rw (inner_text-quote (escape key), selector_segment)
      (ap (λ k. ok (name k)) (unquote_selector-escape key))

length-write_item : (w : Item) (rest : Text) → length rest < length (write_item w rest)
unfolding write_item
length-write_item any_item rest = omega arith
length-write_item (index_item c cs) rest = omega (arith, length-append cs (93 ∷ rest))
length-write_item (key_item key) rest = omega (arith, length-append (escape key) (34 ∷ 93 ∷ rest))

parse_selectors-write_item :
    (w : Item) (fuel : ℕ) (rest : Text)
    → IsItem w
    → parse_selectors (suc fuel) (write_item w rest)
      ≡ (parse_selectors fuel rest >>= λ segments. ok (item_segment w ∷ segments))
unfolding parse_selectors write_item item_segment
parse_selectors-write_item any_item fuel rest h = refl
parse_selectors-write_item (index_item c cs) fuel rest h =
    rw (selector_end-digits (c ∷ cs) rest h, selector_segment-digits c cs h, parse_selectors) refl
parse_selectors-write_item (key_item key) fuel rest h =
    rw (selector_end-escape key rest, selector_segment-key key, parse_selectors) refl

parse_selectors-write_items :
    (ws : List Item) (fuel : ℕ)
    → All IsItem ws
    → length (write_items ws) ≤ fuel
    → parse_selectors fuel (write_items ws) ≡ ok (map item_segment ws)
unfolding parse_selectors write_items
parse_selectors-write_items [] fuel h bound = refl
parse_selectors-write_items (w ∷ ws) zero h bound =
    absurd (omega (arith, length-write_item w (write_items ws), bound))
parse_selectors-write_items (w ∷ ws) (suc fuel) h bound =
    parse_selectors-write_item w fuel (write_items ws) h.0
    ∙ ap (λ r. r >>= λ segments. ok (item_segment w ∷ segments))
        (parse_selectors-write_items ws fuel h.1
          (omega (arith, length-write_item w (write_items ws), bound)))

-- A field name with its selectors.
pub record Field : Type 0 where
  pub first : ℕ
  pub letters : Text
  pub items : List Item

abbrev pub is_name_char : ℕ → Bool
is_name_char c = is_letter c || is_digit c

pub record IsField (f : Field) : Type 0 where
  pub starts : is_letter f.first ≡ true
  pub names : All (λ c. is_name_char c ≡ true) f.letters
  pub selects : All IsItem f.items

unfoldable pub write_field : Field → Text
unfolding write_items
write_field f = f.first ∷ f.letters ++ write_items f.items

abbrev pub field_segments : Field → Selector
field_segments f = name (f.first ∷ f.letters) ∷ map item_segment f.items

name_rest-items : (ws : List Item) → name_rest (write_items ws) ≡ ([], write_items ws)
unfolding name_rest write_items
name_rest-items [] = refl
name_rest-items (any_item ∷ ws) = refl
name_rest-items (index_item c cs ∷ ws) = refl
name_rest-items (key_item key ∷ ws) = refl

name_rest-letters :
    (letters : Text) (ws : List Item)
    → All (λ c. is_name_char c ≡ true) letters
    → name_rest (letters ++ write_items ws) ≡ (letters, write_items ws)
unfolding name_rest
name_rest-letters [] ws h = name_rest-items ws
name_rest-letters (c ∷ cs) ws h =
    rw (h.0, name_rest) (ap (λ r. (c ∷ r.0, r.1)) (name_rest-letters cs ws h.1))

-- parseSegment reads a field as it is written.
pub parse_segment-write_field :
    (f : Field) → IsField f → parse_segment (write_field f) ≡ ok (field_segments f)
unfolding parse_segment write_field
parse_segment-write_field f h =
    rw (h.starts, name_rest-letters f.letters f.items h.names, parse_segment)
      (ap (λ r. r >>= λ segments. ok (name (f.first ∷ f.letters) ∷ segments))
        (parse_selectors-write_items f.items (length (write_items f.items)) h.selects
          (omega arith)))
