-- ===== src/Json/Escape.antt =====
-- src/json/json.cpp: `escape_json` and `unescape_json`.
use llama_cli.Base.{
  ℕ, ◌+◌, ◌-◌, ◌/◌, ◌%◌, ◌≤◌, ◌≡◌, refl, ap, ◌∙◌, ◌⊎◌, true, false, [], ◌∷◌, ◌++◌, arith, ltb, leb,
  ◌==◌, if◌then◌else◌, All, Text,
}

-- a digit of `%x`
abbrev pub hex_digit : ℕ → ℕ
hex_digit d = if ltb d 10 then b'0' + d else b'a' + (d - 10)

-- what `escape_json` appends for one byte; `"\\u%04x"` pads to four digits
unfoldable pub escape_byte : ℕ → Text
escape_byte c =
    if c == b'"'
    then b'\\' ∷ b'"' ∷ []
    else if c == b'\\'
    then b'\\' ∷ b'\\' ∷ []
    else if c == 8
    then b'\\' ∷ b'b' ∷ []
    else if c == 12
    then b'\\' ∷ b'f' ∷ []
    else if c == b'\n'
    then b'\\' ∷ b'n' ∷ []
    else if c == b'\r'
    then b'\\' ∷ b'r' ∷ []
    else if c == b'\t'
    then b'\\' ∷ b't' ∷ []
    else if leb c 31
    then b'\\' ∷ b'u' ∷ b'0' ∷ b'0' ∷ hex_digit (c / 16) ∷ hex_digit (c % 16) ∷ []
    else c ∷ []

unfoldable pub escape_json : Text → Text
escape_json [] = []
escape_json (c ∷ s) = escape_byte c ++ escape_json s

-- the switch on the byte behind a backslash
unfoldable pub unescape_byte : ℕ → Text
unescape_byte c =
    if c == b'"'
    then b'"' ∷ []
    else if c == b'\\'
    then b'\\' ∷ []
    else if c == b'n'
    then b'\n' ∷ []
    else if c == b'r'
    then b'\r' ∷ []
    else if c == b't'
    then b'\t' ∷ []
    else b'\\' ∷ c ∷ []

-- a backslash at the end is an ordinary byte
unfoldable pub unescape_json : Text → Text
unfolding unescape_byte
unescape_json [] = []
unescape_json (c ∷ []) = c ∷ []
unescape_json (c ∷ d ∷ s) = elim (c == b'\\') [
  | true ↦ unescape_byte d ++ unescape_json s
  | false ↦ c ∷ unescape_json (d ∷ s)
]

-- The bytes that both functions know: `unescape_json` reads no `\b`, `\f` and `\u`.
abbrev pub IsPlain : ℕ → Type 0
IsPlain c = (32 ≤ c) ⊎ ((c ≡ b'\n') ⊎ ((c ≡ b'\r') ⊎ (c ≡ b'\t')))

unescape-escape_byte :
    (c : ℕ) (s : Text) → IsPlain c → unescape_json (escape_byte c ++ s) ≡ c ∷ unescape_json s
unfolding unescape_json escape_byte
unescape-escape_byte c [] h = ground arith
unescape-escape_byte c (d ∷ s) h = ground arith

-- `unescape_json` undoes `escape_json` on every text whose control characters are newlines,
-- carriage returns and tabs.
pub unescape-escape : (s : Text) → All IsPlain s → unescape_json (escape_json s) ≡ s
unfolding escape_json
unescape-escape [] h = unfold unescape_json in refl
unescape-escape (c ∷ s) (hc, h) =
    unescape-escape_byte c (escape_json s) hc ∙ ap (◌∷◌ c) (unescape-escape s h)
