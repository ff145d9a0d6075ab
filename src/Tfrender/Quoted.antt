-- ===== src/Tfrender/Quoted.antt =====
-- go/internal/tfrender/import_moves.go: `RenderHclQuotedString` and `ParseHclQuotedString`.
-- A text is the list of its code points, so it stands for valid UTF-8. A byte offset into a text is
-- the rest of the text from there. Of a failure the code is kept, and not the message.
pub mod RoundTrip
pub mod Fuel
use infrawright_dev.Base.{
  ℕ, zero, suc, Bool, true, false, ◌&&◌, ◌||◌, List, [], ◌∷◌, ◌++◌, ◌==◌, if◌then◌else◌, length,
  Text, codes, Option, none, some, Result, ok, err,
}

-- `no_fuel` is the model's own: the loops never return it.
pub data Failure : Type 0 where
  invalid_import_resource_type invalid_hcl_quoted_string : Failure
  import_move_limit_exceeded invalid_generated_imports no_fuel : Failure

unfoldable pub contains_nul : Text → Bool
contains_nul [] = false
contains_nul (c ∷ cs) = c == 0 || contains_nul cs

-- The switch of `RenderHclQuotedString` on one rune.
unfoldable pub escape_rune : ℕ → Text
escape_rune r =
    if r == b'\\'
    then codes "\\\\"
    else if r == b'"'
    then codes "\\\""
    else if r == b'\n'
    then codes "\\n"
    else if r == b'\r'
    then codes "\\r"
    else if r == b'\t'
    then codes "\\t"
    else r ∷ []

unfoldable pub escape_body : Text → Text
unfolding escape_rune
escape_body [] = []
escape_body (r ∷ rs) = escape_rune r ++ escape_body rs

-- `strings.ReplaceAll(text, sign + "{", sign + sign + "{")`.
unfoldable pub replace_all_open : ℕ → Text → Text
replace_all_open sign [] = []
replace_all_open sign (c ∷ []) = c ∷ []
replace_all_open sign (c ∷ d ∷ cs) = elim (c == sign && d == b'{') [
  | true ↦ sign ∷ sign ∷ b'{' ∷ replace_all_open sign cs
  | false ↦ c ∷ replace_all_open sign (d ∷ cs)
]

unfoldable pub render_quoted : Text → Result Failure Text
unfolding contains_nul escape_body replace_all_open
render_quoted value =
    if contains_nul value
    then err invalid_hcl_quoted_string
    else ok
        (b'"' ∷ (replace_all_open b'%' (replace_all_open b'$' (escape_body value)) ++ b'"' ∷ []))

-- `strings.HasPrefix`, with what stands behind the prefix.
unfoldable pub strip_prefix : Text → Text → Option Text
strip_prefix [] text = some text
strip_prefix (p ∷ ps) [] = none
strip_prefix (p ∷ ps) (c ∷ cs) = if p == c then strip_prefix ps cs else none

-- What one round of the loop of `ParseHclQuotedString` does: it returns, it writes a piece of the
-- output and goes on with the rest, or it fails.
pub data ScanStep : Type 0 where
  closed : Text → ScanStep
  copied : Text → Text → ScanStep
  failed : ScanStep

-- Behind a backslash.
unfoldable pub scan_escape : Text → ScanStep
scan_escape [] = failed
scan_escape (c ∷ cs) =
    if c == b'n'
    then copied (b'\n' ∷ []) cs
    else if c == b'r'
    then copied (b'\r' ∷ []) cs
    else if c == b't'
    then copied (b'\t' ∷ []) cs
    else if c == b'"' || c == b'\\'
    then copied (c ∷ []) cs
    else failed

-- The last two cases: a NUL byte, or a rune that is copied.
scan_plain : ℕ → Text → ScanStep
scan_plain c cs = if c == 0 then failed else copied (c ∷ []) cs

-- The case of `%%{`.
scan_percent : ℕ → Text → ScanStep
unfolding scan_plain strip_prefix
scan_percent c cs = elim (strip_prefix (codes "%%{") (c ∷ cs)) [
  | some rest ↦ copied (codes "%{") rest
  | none ↦ scan_plain c cs
]

-- The case of `$${`.
scan_dollar : ℕ → Text → ScanStep
unfolding scan_percent
scan_dollar c cs = elim (strip_prefix (codes "$${") (c ∷ cs)) [
  | some rest ↦ copied (codes "${") rest
  | none ↦ scan_percent c cs
]

unfoldable pub scan_step : Text → ScanStep
unfolding scan_escape scan_dollar
scan_step [] = failed
scan_step (c ∷ cs) =
    if c == b'"' then closed cs else if c == b'\\' then scan_escape cs else scan_dollar c cs

-- The loop, with the output so far.
unfoldable pub scan_loop : ℕ → Text → Text → Result Failure (Text × Text)
scan_loop zero output text = err no_fuel
scan_loop (suc fuel) output text = elim (scan_step text) [
  | closed rest ↦ ok (output, rest)
  | copied piece rest ↦ scan_loop fuel (output ++ piece) rest
  | failed ↦ err invalid_hcl_quoted_string
]

-- The value, and what stands behind the closing quote.
unfoldable pub parse_quoted : Text → Result Failure (Text × Text)
unfolding scan_loop scan_step
parse_quoted [] = err invalid_hcl_quoted_string
parse_quoted (c ∷ cs) =
    if c == b'"' then scan_loop (suc (length cs)) [] cs else err invalid_hcl_quoted_string
