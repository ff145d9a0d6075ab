-- ===== src/Metadata/Escapes.antt =====
-- Quoted selectors: what `unquoteSelector` and `selectorEnd` make of an escaped text.
use infrawright_dev.Metadata.PolicyPath.{
  Quoting, quote_step, is_bare, before_text, selector_end, replace_pair, unquote_selector,
  inner_text,
}
use infrawright_dev.Base.{
  ℕ, true, false, ◌||◌, ◌⊎◌, some, [], ◌∷◌, ◌++◌, ◌≡◌, refl, sym, subst, ◌∙◌, ap, arith, ◌==◌,
  if◌then◌else◌, Text, Bool-cases, inl, inr,
}

-- A backslash in front of each backslash and each quote.
unfoldable pub escape_char : ℕ → Text → Text
escape_char c rest = if c == 92 || c == 34 then 92 ∷ c ∷ rest else c ∷ rest

unfoldable pub escape : Text → Text
unfolding escape_char
escape [] = []
escape (c ∷ cs) = escape_char c (escape cs)

-- Only the backslashes doubled.
doubled : Text → Text
doubled [] = []
doubled (c ∷ cs) = if c == 92 then 92 ∷ 92 ∷ doubled cs else c ∷ doubled cs

-- A character is a backslash, a quote, or neither.
pub Char-cases : (c : ℕ) → (c ≡ 92) ⊎ ((c ≡ 34) ⊎ (((c == 92) ≡ false) × ((c == 34) ≡ false)))
Char-cases c = elim (Bool-cases (c == 92)) [
  | inl slash ↦ inl (ground (arith, slash))
  | inr other ↦ elim (Bool-cases (c == 34)) [
    | inl quote ↦ inr (inl (ground (arith, quote)))
    | inr plain ↦ inr (inr (other, plain))
  ]
]

-- A property of characters, by the three cases.
pub char_induction :
    (G : ℕ → Type 0)
    → G 92
    → G 34
    → ((c : ℕ) → (c == 92) ≡ false → (c == 34) ≡ false → G c)
    → (c : ℕ) → G c
char_induction G slash quote plain c = elim (Char-cases c) [
  | inl e ↦ subst G (sym e) slash
  | inr (inl e) ↦ subst G (sym e) quote
  | inr (inr (p, q)) ↦ plain c p q
]

replace_quote-other :
    (c : ℕ) (text : Text)
    → (c == 92) ≡ false
    → replace_pair 92 34 34 (c ∷ text) ≡ c ∷ replace_pair 92 34 34 text
unfolding replace_pair
replace_quote-other c [] h = refl
replace_quote-other c (d ∷ text) h = rw (h, replace_pair) refl

replace_slash-other :
    (c : ℕ) (text : Text)
    → (c == 92) ≡ false
    → replace_pair 92 92 92 (c ∷ text) ≡ c ∷ replace_pair 92 92 92 text
unfolding replace_pair
replace_slash-other c [] h = refl
replace_slash-other c (d ∷ text) h = rw (h, replace_pair) refl

-- A backslash in front of an escaped text stays: the text does not begin with a quote.
replace_quote-backslash :
    (cs : Text) → replace_pair 92 34 34 (92 ∷ escape cs) ≡ 92 ∷ replace_pair 92 34 34 (escape cs)
unfolding replace_pair escape
replace_quote-backslash [] = refl
replace_quote-backslash (c ∷ cs) =
    char_induction
      (λ c.
        replace_pair 92 34 34 (92 ∷ escape_char c (escape cs))
        ≡ 92 ∷ replace_pair 92 34 34 (escape_char c (escape cs)))
      refl refl (λ d p q. rw (p, q) (plain d q)) c
  where
    plain :
        (d : ℕ)
        → (d == 34) ≡ false
        → replace_pair 92 34 34 (92 ∷ d ∷ escape cs) ≡ 92 ∷ replace_pair 92 34 34 (d ∷ escape cs)
    plain d q = rw (q, replace_pair) refl

unescape_quotes : (cs : Text) → replace_pair 92 34 34 (escape cs) ≡ doubled cs
unfolding escape doubled replace_pair
unescape_quotes [] = refl
unescape_quotes (c ∷ cs) =
    char_induction
      (λ c.
        replace_pair 92 34 34 (escape_char c (escape cs))
        ≡ (if c == 92 then 92 ∷ 92 ∷ doubled cs else c ∷ doubled cs))
      (ap (92 ∷◌) (replace_quote-backslash cs) ∙ ap (λ t. 92 ∷ 92 ∷ t) (unescape_quotes cs))
      (ap (34 ∷◌) (unescape_quotes cs))
      (λ d p q. rw (p, q) (replace_quote-other d (escape cs) p ∙ ap (d ∷◌) (unescape_quotes cs))) c

unescape_slashes : (cs : Text) → replace_pair 92 92 92 (doubled cs) ≡ cs
unfolding doubled replace_pair
unescape_slashes [] = refl
unescape_slashes (c ∷ cs) =
    char_induction
      (λ c.
        replace_pair 92 92 92 (if c == 92 then 92 ∷ 92 ∷ doubled cs else c ∷ doubled cs) ≡ c ∷ cs)
      (ap (92 ∷◌) (unescape_slashes cs))
      (replace_slash-other 34 (doubled cs) refl ∙ ap (34 ∷◌) (unescape_slashes cs))
      (λ d p q. rw p (replace_slash-other d (doubled cs) p ∙ ap (d ∷◌) (unescape_slashes cs))) c

-- unquoteSelector takes back the backslashes of any text.
pub unquote_selector-escape : (cs : Text) → unquote_selector (escape cs) ≡ cs
unfolding unquote_selector
unquote_selector-escape cs = ap (replace_pair 92 92 92) (unescape_quotes cs) ∙ unescape_slashes cs

abbrev pub quoted : Quoting
quoted = record { in_quote = true; escaped = false }

-- A character that neither ends the selector nor changes the state belongs to the selector.
pub selector_end_inside :
    (q : Quoting) (ch : ℕ) (raw : Text)
    → is_bare 93 q ch ≡ false
    → quote_step q ch ≡ q
    → selector_end q (ch ∷ raw) ≡ before_text ch (selector_end q raw)
unfolding selector_end
selector_end_inside q ch raw h k =
    rw (h, selector_end) (ap (λ s. before_text ch (selector_end s raw)) k)

pub quote_step-quoted :
    (d : ℕ) → (d == 92) ≡ false → (d == 34) ≡ false → quote_step quoted d ≡ quoted
unfolding quote_step
quote_step-quoted d p q = rw (p, q) refl

is_bare-quoted : (d : ℕ) → is_bare 93 quoted d ≡ false
unfolding is_bare
is_bare-quoted d = ground arith

-- The bracket behind the closing quote ends the selector.
pub selector_end-escape :
    (cs rest : Text)
    → selector_end quoted (escape cs ++ 34 ∷ 93 ∷ rest) ≡ some (escape cs ++ 34 ∷ [], rest)
unfolding selector_end escape
selector_end-escape [] rest = refl
selector_end-escape (c ∷ cs) rest =
    let behind = selector_end-escape cs rest in
    char_induction
      (λ c.
        selector_end quoted (escape_char c (escape cs) ++ 34 ∷ 93 ∷ rest)
        ≡ some (escape_char c (escape cs) ++ 34 ∷ [], rest))
      (ap (λ o. before_text 92 (before_text 92 o)) behind)
      (ap (λ o. before_text 92 (before_text 34 o)) behind)
      (λ d p q.
        rw (p, q)
          (selector_end_inside quoted d (escape cs ++ 34 ∷ 93 ∷ rest) (is_bare-quoted d)
              (quote_step-quoted d p q)
            ∙ ap (before_text d) behind))
      c

pub inner_text-quote : (cs : Text) → inner_text (cs ++ 34 ∷ []) ≡ some cs
unfolding inner_text
inner_text-quote [] = refl
inner_text-quote (c ∷ []) = refl
inner_text-quote (c ∷ d ∷ cs) = rw (inner_text-quote (d ∷ cs), inner_text) refl
