-- ===== src/Tfrender/Quoted/RoundTrip.antt =====
-- Reading back what `RenderHclQuotedString` writes.
use infrawright_dev.Base.{
  ℕ, zero, suc, ◌≤◌, ◌<◌, Bool, true, false, ◌&&◌, ◌||◌, [], ◌∷◌, ◌++◌, ◌==◌, if◌then◌else◌, length,
  length-append, Text, codes, ok, ◌≡◌, ◌≢◌, refl, ap, ◌∙◌, arith, Bool-cases, inl, inr, ◌⊎◌,
  append_assoc, append-nil,
}
use infrawright_dev.Tfrender.Quoted.{
  contains_nul, escape_rune, escape_body, replace_all_open, render_quoted, copied, scan_step,
  scan_loop, parse_quoted,
}

-- The text begins with `{`.
abbrev starts_open : Text → Bool
starts_open [] = false
starts_open (c ∷ cs) = c == b'{'

-- The replacement one rune at a time: a sign in front of `{` is doubled.
double : ℕ → Text → Text
double sign [] = []
double sign (c ∷ cs) =
    (if c == sign && starts_open cs then sign ∷ sign ∷ [] else c ∷ []) ++ double sign cs

replace_all_open-double :
    (sign : ℕ) (t : Text) → sign ≢ b'{' → replace_all_open sign t ≡ double sign t
unfolding replace_all_open double
replace_all_open-double sign [] h = refl
replace_all_open-double sign (c ∷ []) h = ground arith
replace_all_open-double sign (c ∷ d ∷ cs) h =
    ground (arith, replace_all_open-double sign cs, replace_all_open-double sign (d ∷ cs))

-- What the two replacements leave of one rune in front of `next`.
lead : ℕ → Text → Text
lead c next =
    if c == b'%' && starts_open next
    then codes "%%"
    else if c == b'$' && starts_open next
    then codes "$$"
    else escape_rune c

-- The body between the quotes, in one pass.
body : Text → Text
body [] = []
body (c ∷ cs) = lead c cs ++ body cs

starts_open-escape_rune : (c : ℕ) (t : Text) → starts_open (escape_rune c ++ t) ≡ (c == b'{')
unfolding escape_rune
starts_open-escape_rune c t = ground arith

starts_open-escape_body : (v : Text) → starts_open (escape_body v) ≡ starts_open v
unfolding escape_body
starts_open-escape_body [] = refl
starts_open-escape_body (c ∷ cs) = starts_open-escape_rune c (escape_body cs)

lead_dollar : ℕ → Text → Text
lead_dollar c next = if c == b'$' && starts_open next then codes "$$" else escape_rune c

double-escape_rune :
    (c : ℕ) (v t : Text)
    → starts_open t ≡ starts_open v
    → double b'$' (escape_rune c ++ t) ≡ lead_dollar c v ++ double b'$' t
unfolding double escape_rune lead_dollar
double-escape_rune c v t h = ground arith

double-lead_dollar :
    (c : ℕ) (v t : Text)
    → starts_open t ≡ starts_open v
    → double b'%' (lead_dollar c v ++ t) ≡ lead c v ++ double b'%' t
unfolding double lead_dollar lead escape_rune
double-lead_dollar c v t h = ground arith

starts_open-double : (t : Text) → starts_open (double b'$' t) ≡ starts_open t
unfolding double
starts_open-double [] = refl
starts_open-double (c ∷ cs) = ground arith

double-double-body : (v : Text) → double b'%' (double b'$' (escape_body v)) ≡ body v
unfolding escape_body body
double-double-body [] = unfold double in refl
double-double-body (c ∷ cs) =
    ap (double b'%') (double-escape_rune c cs (escape_body cs) (starts_open-escape_body cs))
    ∙ double-lead_dollar c cs (double b'$' (escape_body cs))
        (starts_open-double (escape_body cs) ∙ starts_open-escape_body cs)
    ∙ ap (λ t. lead c cs ++ t) (double-double-body cs)

render_quoted-body :
    (v : Text) → contains_nul v ≡ false → render_quoted v ≡ ok (b'"' ∷ (body v ++ b'"' ∷ []))
unfolding render_quoted
render_quoted-body v h = rw h (
    rw
      (
        replace_all_open-double b'$' (escape_body v) (omega arith),
        replace_all_open-double b'%' (double b'$' (escape_body v)) (omega arith),
        double-double-body v,
      )
      refl)

starts_open-body : (v r : Text) → starts_open (body v ++ b'"' ∷ r) ≡ starts_open v
unfolding body lead escape_rune
starts_open-body [] r = refl
starts_open-body (c ∷ cs) r = ground arith

-- No sign in front of `{` is left single.
abbrev starts_sign_open : ℕ → Text → Bool
starts_sign_open sign [] = false
starts_sign_open sign (c ∷ cs) = c == sign && starts_open cs

starts_sign_open-body :
    (sign : ℕ) (v r : Text)
    → (sign ≡ b'$') ⊎ (sign ≡ b'%')
    → starts_sign_open sign (body v ++ b'"' ∷ r) ≡ false
unfolding body lead escape_rune
starts_sign_open-body sign [] r h = ground arith
starts_sign_open-body sign (c ∷ cs) r h = ground (arith, starts_open-body cs r)

-- One round of the loop at a rune that is not a doubled sign.
scan_step-escape_rune :
    (c : ℕ) (t : Text)
    → c ≢ 0
    → starts_sign_open b'$' t ≡ false
    → starts_sign_open b'%' t ≡ false
    → scan_step (escape_rune c ++ t) ≡ copied (c ∷ []) t
unfolding scan_step escape_rune
scan_step-escape_rune c t h k l = ground arith

-- A sign in front of `{`.
abbrev is_open : ℕ → Text → Bool
is_open c next = (c == b'$' || c == b'%') && starts_open next

lead-escape_rune : (c : ℕ) (cs : Text) → is_open c cs ≡ false → lead c cs ≡ escape_rune c
unfolding lead
lead-escape_rune c cs h = ground arith

scan_step-body :
    (c : ℕ) (cs r : Text)
    → c ≢ 0
    → is_open c cs ≡ false
    → scan_step (body (c ∷ cs) ++ b'"' ∷ r) ≡ copied (c ∷ []) (body cs ++ b'"' ∷ r)
unfolding body
scan_step-body c cs r h k =
    rw (lead-escape_rune c cs k, append_assoc)
      (scan_step-escape_rune c (body cs ++ b'"' ∷ r) h (starts_sign_open-body b'$' cs r (inl refl))
        (starts_sign_open-body b'%' cs r (inr refl)))

scan_step-body_open :
    (c d : ℕ) (cs r : Text)
    → is_open c (d ∷ cs) ≡ true
    → scan_step (body (c ∷ d ∷ cs) ++ b'"' ∷ r) ≡ copied (c ∷ d ∷ []) (body cs ++ b'"' ∷ r)
unfolding body lead escape_rune scan_step
scan_step-body_open c d cs r h = ground arith

scan_loop-copied :
    (fuel : ℕ) (output text piece rest : Text)
    → scan_step text ≡ copied piece rest
    → scan_loop (suc fuel) output text ≡ scan_loop fuel (output ++ piece) rest
unfolding scan_loop
scan_loop-copied fuel output text piece rest h = rw (h, scan_loop)

-- The rounds of the loop over a rendered body, to the closing quote.
scan_loop-body :
    (v output r : Text) (fuel : ℕ)
    → contains_nul v ≡ false
    → length v < fuel
    → scan_loop fuel output (body v ++ b'"' ∷ r) ≡ ok (output ++ v, r)
unfolding contains_nul
scan_loop-body v output r zero n h = elim h [ ]
scan_loop-body [] output r (suc fuel) n h = unfold scan_loop scan_step body in rw append-nil
scan_loop-body (c ∷ []) output r (suc fuel) n h =
    scan_loop-copied fuel output _ (c ∷ []) _ (scan_step-body c [] r (ground arith) (ground arith))
    ∙ scan_loop-body [] (output ++ c ∷ []) r fuel refl (omega arith)
    ∙ rw append-nil
scan_loop-body (c ∷ d ∷ cs) output r (suc fuel) n h = elim (Bool-cases (is_open c (d ∷ cs))) [
  | inl open_sign ↦
      scan_loop-copied fuel output _ (c ∷ d ∷ []) _ (scan_step-body_open c d cs r open_sign)
      ∙ scan_loop-body cs (output ++ c ∷ d ∷ []) r fuel (ground arith) (omega arith)
      ∙ rw append_assoc
  | inr plain ↦
      scan_loop-copied fuel output _ (c ∷ []) _ (scan_step-body c (d ∷ cs) r (ground arith) plain)
      ∙ scan_loop-body (d ∷ cs) (output ++ c ∷ []) r fuel (ground arith) (omega arith)
      ∙ rw append_assoc
]

length-lead : (c : ℕ) (next : Text) → 1 ≤ length (lead c next)
unfolding lead escape_rune
length-lead c next = ground arith

length-body : (v : Text) → length v ≤ length (body v)
unfolding body
length-body [] = omega arith
length-body (c ∷ cs) =
    omega (arith, length-body cs, length-lead c cs, length-append (lead c cs) (body cs))

-- What `render_quoted` writes for a value without a NUL, and how it is read back.
pub read_back :
    (v : Text)
    → contains_nul v ≡ false
    → (t : Text) × (render_quoted v ≡ ok t)
      × ((rest : Text) → parse_quoted (t ++ rest) ≡ ok (v, rest))
read_back v h = (
  b'"' ∷ (body v ++ b'"' ∷ []),
  render_quoted-body v h,
  λ rest. rw append_assoc (
      unfold parse_quoted in
      scan_loop-body v [] rest (suc (length (body v ++ b'"' ∷ rest))) h
        (omega (arith, length-body v, length-append (body v) (b'"' ∷ rest)))),
)

-- `render_quoted` writes a value without a NUL, and whatever text stands behind what it writes,
-- `parse_quoted` reads back the value and stops in front of that text.
pub parse_quoted-render_quoted :
    (v rest : Text)
    → contains_nul v ≡ false
    → (t : Text) × (render_quoted v ≡ ok t) × (parse_quoted (t ++ rest) ≡ ok (v, rest))
parse_quoted-render_quoted v rest h =
    let (t, writes, reads) = read_back v h in (t, writes, reads rest)
