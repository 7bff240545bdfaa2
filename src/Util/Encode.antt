-- ===== src/Util/Encode.antt =====
-- src/util/util.cpp: `url_encode`, `shell_escape` and `strip_ansi`. `isalnum` is that of the C locale.
use llama_cli.Base.{
  ℕ, ◌+◌, ◌-◌, ◌/◌, ◌%◌, Bool, true, false, not, ◌&&◌, ◌||◌, [], ◌∷◌, ◌++◌, ltb, leb, ◌==◌,
  if◌then◌else◌, Text, codes,
}

abbrev pub in_range : ℕ → ℕ → ℕ → Bool
in_range low high c = leb low c && leb c high

unfoldable pub is_letter : ℕ → Bool
is_letter c = in_range b'A' b'Z' c || in_range b'a' b'z' c

unfoldable pub is_unreserved : ℕ → Bool
is_unreserved c =
    is_letter c || in_range b'0' b'9' c || c == b'-' || c == b'_' || c == b'.' || c == b'~'

unfoldable pub hex_upper : ℕ → ℕ
hex_upper d = if ltb d 10 then d + b'0' else d - 10 + b'A'

unfoldable pub url_byte : ℕ → Text
url_byte c =
    if c == b' '
    then codes "+"
    else if is_unreserved c
    then c ∷ []
    else b'%' ∷ hex_upper (c / 16) ∷ hex_upper (c % 16) ∷ []

unfoldable pub url_encode : Text → Text
url_encode [] = []
url_encode (c ∷ input) = url_byte c ++ url_encode input

unfoldable pub shell_byte : ℕ → Text
shell_byte c = if c == b'\'' then codes "'\\''" else c ∷ []

unfoldable pub shell_body : Text → Text
shell_body [] = []
shell_body (c ∷ s) = shell_byte c ++ shell_body s

unfoldable pub shell_escape : Text → Text
shell_escape s = b'\'' ∷ (shell_body s ++ codes "'")

-- the loop of `strip_ansi`, with `in_escape`
unfoldable pub strip_from : Bool → Text → Text
strip_from in_escape [] = []
strip_from in_escape (c ∷ s) = elim (c == 27) [
  | true ↦ strip_from true s
  | false ↦ elim in_escape [
    | true ↦ strip_from (not (is_letter c)) s
    | false ↦ c ∷ strip_from false s
  ]
]

unfoldable pub strip_ansi : Text → Text
strip_ansi s = strip_from false s
