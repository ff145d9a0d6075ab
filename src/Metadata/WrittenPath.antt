-- ===== src/Metadata/WrittenPath.antt =====
-- `splitDotted` on a path as it is written, and the whole of `parsePolicyPath`.
use infrawright_dev.Canonjson.Decimals.{is_digit}
use infrawright_dev.Metadata.DriftPolicy.{Selector}
use infrawright_dev.Metadata.Escapes.{
  escape_char, escape, char_induction, quoted, quote_step-quoted,
}
use infrawright_dev.Metadata.ParsedPath.{
  Item, any_item, index_item, key_item, write_item, write_items, IsItem, Field, IsField,
  is_name_char, write_field, field_segments, parse_segment-write_field,
}
use infrawright_dev.Metadata.PolicyPath.{
  PathError, Quoting, unquoted, unterminated_quote, quote_step, is_bare, Splitting, split_step,
  split_loop, split_dotted, all_digits, is_letter, parse_segments, parse_policy_path,
}
use infrawright_dev.Base.{
  ℕ, true, false, List, [], ◌∷◌, ◌++◌, map, append_assoc, append-nil, ◌≡◌, refl, sym, ap, ◌∙◌,
  arith, if◌then◌else◌, Text, All, Result, ok, err, ◌>>=◌, and_iff,
}

abbrev splitting : List Text → Text → Quoting → Splitting
splitting parts buffer quoting = record { parts = parts; buffer = buffer; quoting = quoting }

abbrev inside_escape : Quoting
inside_escape = record { in_quote = true; escaped = true }

-- The loop adds the text to the buffer and leads from one state to the other.
record Keeps (q : Quoting) (text : Text) (r : Quoting) : Type 0 where
  run :
      (parts : List Text) (buffer later : Text)
      → split_loop (splitting parts buffer q) (text ++ later)
        ≡ split_loop (splitting parts (buffer ++ text) r) later

nil-Keeps : (q : Quoting) → Keeps q [] q
nil-Keeps q = record {
  run = λ parts buffer later.
      ap (λ b. split_loop (splitting parts b q) later) (sym (append-nil buffer));
}

cons-Keeps :
    {q r s : Quoting} (c : ℕ) {text : Text}
    → is_bare 46 q c ≡ false
    → quote_step q c ≡ r
    → Keeps r text s
    → Keeps q (c ∷ text) s
unfolding split_loop split_step
cons-Keeps {q} {r} {s} c {text} bare step keeps = record {
  run = λ parts buffer later.
      rw (bare, split_loop, split_step)
        (ap (λ t. split_loop (splitting parts (buffer ++ c ∷ []) t) (text ++ later)) step
          ∙ keeps.run parts (buffer ++ c ∷ []) later
          ∙ ap (λ b. split_loop (splitting parts b s) later) (append_assoc buffer (c ∷ []) text));
}

append-Keeps :
    {q r s : Quoting} (front : Text) {text : Text}
    → Keeps q front r
    → Keeps r text s
    → Keeps q (front ++ text) s
append-Keeps {q} {r} {s} front {text} first second = record {
  run = λ parts buffer later.
      ap (split_loop (splitting parts buffer q)) (append_assoc front text later)
      ∙ first.run parts buffer (text ++ later)
      ∙ second.run parts (buffer ++ front) later
      ∙ ap (λ b. split_loop (splitting parts b s) later) (append_assoc buffer front text);
}

escape-Keeps : (cs : Text) → Keeps quoted (escape cs) quoted
unfolding escape quote_step is_bare
escape-Keeps [] = nil-Keeps quoted
escape-Keeps (c ∷ cs) =
    let behind = escape-Keeps cs in
    char_induction (λ c. Keeps quoted (escape_char c (escape cs)) quoted)
      (cons-Keeps {r = inside_escape} 92 refl refl (cons-Keeps 92 refl refl behind))
      (cons-Keeps {r = inside_escape} 92 refl refl (cons-Keeps 34 refl refl behind))
      (λ d p q. rw (p, q) (cons-Keeps d (ground arith) (quote_step-quoted d p q) behind)) c

-- Letters, digits and underscores.
name_char-Plain :
    (c : ℕ)
    → is_name_char c ≡ true
    → (is_bare 46 unquoted c ≡ false) × (quote_step unquoted c ≡ unquoted)
unfolding is_letter is_digit is_bare quote_step
name_char-Plain c h = (ground (arith, h), ground (arith, h))

letters-Keeps : (cs : Text) → All (λ c. is_name_char c ≡ true) cs → Keeps unquoted cs unquoted
letters-Keeps [] h = nil-Keeps unquoted
letters-Keeps (c ∷ cs) h =
    let (bare, step) = name_char-Plain c h.0 in cons-Keeps c bare step (letters-Keeps cs h.1)

digits_names : (cs : Text) → all_digits cs ≡ true → All (λ c. is_name_char c ≡ true) cs
unfolding all_digits
digits_names [] h = tt
digits_names (c ∷ cs) h =
    let (digit, later) = (and_iff (is_digit c) (all_digits cs)).0 h in
    (ground (arith, digit), digits_names cs later)

write_item-Keeps :
    (w : Item) (rest : Text)
    → IsItem w
    → Keeps unquoted rest unquoted
    → Keeps unquoted (write_item w rest) unquoted
unfolding write_item quote_step is_bare
write_item-Keeps any_item rest h behind =
    cons-Keeps 91 refl refl (cons-Keeps 42 refl refl (cons-Keeps 93 refl refl behind))
write_item-Keeps (index_item c cs) rest h behind = cons-Keeps 91 refl refl (
    append-Keeps (c ∷ cs) (letters-Keeps (c ∷ cs) (digits_names (c ∷ cs) h))
      (cons-Keeps 93 refl refl behind))
write_item-Keeps (key_item key) rest h behind = cons-Keeps 91 refl refl (
    cons-Keeps {r = quoted} 34 refl refl (
      append-Keeps (escape key) (escape-Keeps key)
        (cons-Keeps 34 refl refl (cons-Keeps 93 refl refl behind))))

write_items-Keeps : (ws : List Item) → All IsItem ws → Keeps unquoted (write_items ws) unquoted
unfolding write_items
write_items-Keeps [] h = nil-Keeps unquoted
write_items-Keeps (w ∷ ws) h = write_item-Keeps w (write_items ws) h.0 (write_items-Keeps ws h.1)

write_field-Keeps : (f : Field) → IsField f → Keeps unquoted (write_field f) unquoted
unfolding write_field
write_field-Keeps f h =
    append-Keeps (f.first ∷ f.letters)
      (letters-Keeps (f.first ∷ f.letters) (ground (arith, h.starts), h.names))
      (write_items-Keeps f.items h.selects)

-- The fields of a path, with dots between them.
unfoldable pub write_path : Field → List Field → Text
unfolding write_field
write_path f [] = write_field f
write_path f (g ∷ gs) = write_field f ++ 46 ∷ write_path g gs

abbrev pub path_segments : List Field → Selector
path_segments [] = []
path_segments (f ∷ fs) = field_segments f ++ path_segments fs

abbrev split_end : Splitting → Result PathError (List Text)
split_end s = if s.quoting.in_quote then err unterminated_quote else ok (s.parts ++ s.buffer ∷ [])

split_loop-write_path :
    (f : Field) (fs : List Field) (parts : List Text)
    → IsField f
    → All IsField fs
    → split_end (split_loop (splitting parts [] unquoted) (write_path f fs))
      ≡ ok (parts ++ map write_field (f ∷ fs))
unfolding split_loop write_path is_bare split_step
split_loop-write_path f [] parts h hs =
    ap (λ t. split_end (split_loop (splitting parts [] unquoted) t))
      (sym (append-nil (write_field f)))
    ∙ ap split_end ((write_field-Keeps f h).run parts [] [])
split_loop-write_path f (g ∷ gs) parts h hs =
    ap split_end ((write_field-Keeps f h).run parts [] (46 ∷ write_path g gs))
    ∙ split_loop-write_path g gs (parts ++ write_field f ∷ []) hs.0 hs.1
    ∙ ap ok (append_assoc parts (write_field f ∷ []) (map write_field (g ∷ gs)))

parse_segments-write_field :
    (fs : List Field) → All IsField fs → parse_segments (map write_field fs) ≡ ok (path_segments fs)
unfolding parse_segments
parse_segments-write_field [] h = refl
parse_segments-write_field (f ∷ fs) h =
    rw (parse_segment-write_field f h.0, parse_segments-write_field fs h.1, parse_segments) refl

write_path_first :
    (f : Field) (fs : List Field)
    → parse_policy_path (write_path f fs) ≡ (split_dotted (write_path f fs) >>= parse_segments)
unfolding parse_policy_path write_path write_field
write_path_first f [] = refl
write_path_first f (g ∷ gs) = refl

-- Written with the field names, the selectors [*], [index] and ["key"] with its escapes, and a dot between fields, a path of one or more well-formed fields is read back by parsePolicyPath as the segments of its fields, in order.
pub parse_policy_path-write_path :
    (f : Field) (fs : List Field)
    → IsField f
    → All IsField fs
    → parse_policy_path (write_path f fs) ≡ ok (path_segments (f ∷ fs))
unfolding split_dotted
parse_policy_path-write_path f fs h hs =
    write_path_first f fs
    ∙ ap (λ r. r >>= parse_segments) (split_loop-write_path f fs [] h hs)
    ∙ parse_segments-write_field (f ∷ fs) (h, hs)
