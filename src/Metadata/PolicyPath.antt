-- ===== src/Metadata/PolicyPath.antt =====
-- go/internal/metadata/driftpolicy.go: `parsePolicyPath`, which reads the path of a policy entry. A
-- panic of `driftFail` is an error here; of its message the kind is kept.
use infrawright_dev.Canonjson.Decimals.{is_digit, digits_value}
use infrawright_dev.Metadata.DriftPolicy.{
  PolicySegment, name, position, big, Selector, policy_wildcard, max_safe_integer,
}
use infrawright_dev.Base.{
  ℕ, zero, suc, Bool, true, false, not, ◌&&◌, ◌||◌, Option, none, some, List, [], ◌∷◌, ◌++◌, leb,
  ◌==◌, if◌then◌else◌, length, Text, text_eq, Result, ok, err, ◌>>=◌,
}

pub data PathError : Type 0 where
  empty_path : PathError
  unterminated_quote : PathError
  unterminated_selector : PathError
  invalid_segment : PathError
  invalid_selector : PathError
  out_of_fuel : PathError

-- Inside quotes, and behind a backslash there.
pub record Quoting : Type 0 where
  pub in_quote : Bool
  pub escaped : Bool

abbrev pub unquoted : Quoting
unquoted = record { in_quote = false; escaped = false }

-- How a character changes the state, in `splitDotted` and in `selectorEnd`.
unfoldable pub quote_step : Quoting → ℕ → Quoting
quote_step q ch =
    if q.escaped
    then record q { escaped = false }
    else if ch == 92 && q.in_quote
    then record q { escaped = true }
    else if ch == 34
    then record q { in_quote = not q.in_quote }
    else q

-- A character that stands outside quotes.
unfoldable pub is_bare : ℕ → Quoting → ℕ → Bool
is_bare mark q ch = not q.escaped && ch == mark && not q.in_quote

-- The variables of the loop of `splitDotted`.
pub record Splitting : Type 0 where
  pub parts : List Text
  pub buffer : Text
  pub quoting : Quoting

unfoldable pub split_step : Splitting → ℕ → Splitting
unfolding quote_step is_bare
split_step s ch =
    if is_bare 46 s.quoting ch
    then record s { parts = s.parts ++ s.buffer ∷ []; buffer = [] }
    else record s { buffer = s.buffer ++ ch ∷ []; quoting = quote_step s.quoting ch }

unfoldable pub split_loop : Splitting → Text → Splitting
unfolding split_step
split_loop s [] = s
split_loop s (ch ∷ text) = split_loop (split_step s ch) text

unfoldable pub split_dotted : Text → Result PathError (List Text)
unfolding split_loop
split_dotted text =
    let s = split_loop (record { parts = []; buffer = []; quoting = unquoted }) text in
    if s.quoting.in_quote then err unterminated_quote else ok (s.parts ++ s.buffer ∷ [])

abbrev pub before_text : ℕ → Option (Text × Text) → Option (Text × Text)
before_text ch none = none
before_text ch (some (selector, rest)) = some (ch ∷ selector, rest)

-- `selectorEnd`: the text in front of the bracket that ends a selector, and the text behind it.
unfoldable pub selector_end : Quoting → Text → Option (Text × Text)
unfolding quote_step is_bare
selector_end q [] = none
selector_end q (ch ∷ raw) =
    let later = selector_end (quote_step q ch) raw in
    if is_bare 93 q ch then some ([], raw) else before_text ch later

-- `strings.ReplaceAll(text, first + second, by)`
unfoldable pub replace_pair : ℕ → ℕ → ℕ → Text → Text
replace_pair first second by [] = []
replace_pair first second by (x ∷ []) = x ∷ []
replace_pair first second by (x ∷ y ∷ text) =
    let replaced = replace_pair first second by text in
    let kept = replace_pair first second by (y ∷ text) in
    if x == first && y == second then by ∷ replaced else x ∷ kept

unfoldable pub unquote_selector : Text → Text
unfolding replace_pair
unquote_selector text = replace_pair 92 92 92 (replace_pair 92 34 34 text)

-- `parseIndex`, of digits.
unfoldable pub parse_index : Text → PolicySegment
unfolding digits_value
parse_index text =
    let value = digits_value 0 text in
    if leb value max_safe_integer then position value else big value

unfoldable pub all_digits : Text → Bool
unfolding is_digit
all_digits [] = true
all_digits (c ∷ cs) = is_digit c && all_digits cs

-- The text between a first and a last quote.
unfoldable pub inner_text : Text → Option Text
inner_text [] = none
inner_text (c ∷ []) = if c == 34 then some [] else none
inner_text (c ∷ d ∷ cs) = elim (inner_text (d ∷ cs)) [ some inner ↦ some (c ∷ inner) | none ↦ none ]

abbrev pub quoted_text : Text → Option Text
quoted_text [] = none
quoted_text (c ∷ cs) = if c == 34 then inner_text cs else none

-- What a selector stands for.
unfoldable pub selector_segment : Text → Result PathError PolicySegment
unfolding all_digits parse_index inner_text unquote_selector text_eq
selector_segment [] = ok (name policy_wildcard)
selector_segment (c ∷ cs) =
    if text_eq (c ∷ cs) policy_wildcard
    then ok (name policy_wildcard)
    else if all_digits (c ∷ cs)
    then ok (parse_index (c ∷ cs))
    else elim (quoted_text (c ∷ cs)) [
      | some inner ↦ ok (name (unquote_selector inner))
      | none ↦ err invalid_selector
    ]

-- The loop over the selectors of a segment. Each takes at least two characters.
unfoldable pub parse_selectors : ℕ → Text → Result PathError Selector
unfolding selector_end selector_segment
parse_selectors fuel [] = ok []
parse_selectors zero (ch ∷ raw) = err out_of_fuel
parse_selectors (suc fuel) (ch ∷ raw) =
    if not (ch == 91) then err invalid_segment else elim (selector_end unquoted raw) [
      | none ↦ err unterminated_selector
      | some (selector, rest) ↦ selector_segment selector >>= λ segment.
          parse_selectors fuel rest >>= λ segments. ok (segment ∷ segments)
    ]

unfoldable pub is_letter : ℕ → Bool
is_letter c = (leb 65 c && leb c 90) || (leb 97 c && leb c 122) || c == 95

unfoldable pub name_rest : Text → Text × Text
unfolding is_letter is_digit
name_rest [] = ([], [])
name_rest (c ∷ cs) =
    let (letters, rest) = name_rest cs in
    if is_letter c || is_digit c then (c ∷ letters, rest) else ([], c ∷ cs)

unfoldable pub parse_segment : Text → Result PathError Selector
unfolding name_rest parse_selectors is_letter
parse_segment [] = err invalid_segment
parse_segment (c ∷ cs) =
    if is_letter c
    then (let (letters, rest) = name_rest cs in
        parse_selectors (length rest) rest >>= λ segments. ok (name (c ∷ letters) ∷ segments))
    else err invalid_segment

unfoldable pub parse_segments : List Text → Result PathError Selector
unfolding parse_segment
parse_segments [] = ok []
parse_segments (raw ∷ rest) =
    parse_segment raw >>= λ segments. parse_segments rest >>= λ later. ok (segments ++ later)

unfoldable pub parse_policy_path : Text → Result PathError Selector
unfolding split_dotted parse_segments
parse_policy_path [] = err empty_path
parse_policy_path (c ∷ cs) = split_dotted (c ∷ cs) >>= parse_segments
