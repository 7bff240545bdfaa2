-- ===== src/Json/Strings.antt =====
-- src/json/json.cpp: `decode_unicode_escape`, `decode_escape`, `is_end_quote` and
-- `json_extract_string`. `none` is the exception that `std::stoul` throws and nothing catches.
use llama_cli.Json.Scan.{find_key_value}
use llama_cli.Base.{
  ℕ, zero, suc, ◌+◌, ◌-◌, ◌*◌, ◌%◌, ◌^◌, Bool, true, false, not, ◌&&◌, ◌||◌, Option, none, some, [],
  ◌∷◌, ◌++◌, ltb, leb, ◌==◌, if◌then◌else◌, ◌>>=◌, length, drop, Text, codes, text_eq, char_at,
  substr,
}

-- `isspace`
is_c_space : ℕ → Bool
is_c_space c = c == b' ' || (leb 9 c && leb c 13)

skip_c_space : Text → Text
skip_c_space [] = []
skip_c_space (c ∷ s) = if is_c_space c then skip_c_space s else c ∷ s

-- the value of a hexadecimal digit
abbrev pub hex_value : ℕ → Option ℕ
hex_value c =
    if leb b'0' c && leb c b'9'
    then some (c - b'0')
    else if leb b'a' c && leb c b'f'
    then some (c - b'a' + 10)
    else if leb b'A' c && leb c b'F'
    then some (c - b'A' + 10)
    else none

-- the digits at the front, read behind `acc`
hex_digits : Text → ℕ → ℕ
hex_digits [] acc = acc
hex_digits (c ∷ s) acc = elim (hex_value c) [ none ↦ acc | some d ↦ hex_digits s (acc * 16 + d) ]

hex_number : Text → Option ℕ
hex_number [] = none
hex_number (c ∷ s) = do d ← hex_value c; some (hex_digits s d)

-- "0x" counts as a prefix only if a digit follows
hex_prefixed : Text → Option ℕ
hex_prefixed (z ∷ x ∷ s) = elim (z == b'0' && (x == b'x' || x == b'X')) [
  | true ↦ elim (hex_number s) [ none ↦ hex_number (z ∷ x ∷ s) | some n ↦ some n ]
  | false ↦ hex_number (z ∷ x ∷ s)
]
hex_prefixed s = hex_number s

hex_signed : Text → Option ℕ
hex_signed [] = none
hex_signed (c ∷ s) =
    if c == b'-'
    then (hex_prefixed s >>= λ n. some ((2 ^ 64 - n) % 2 ^ 64))
    else if c == b'+'
    then hex_prefixed s
    else hex_prefixed (c ∷ s)

-- `std::stoul(s, nullptr, 16)` on a short text; `none` is `std::invalid_argument`
unfoldable pub stoul_16 : Text → Option ℕ
unfolding is_c_space skip_c_space hex_digits hex_number hex_prefixed hex_signed
stoul_16 s = hex_signed (skip_c_space s)

-- the bytes consumed behind the backslash, 0 on failure, and what is appended to `out`
unfoldable pub decode_unicode_escape : Text → ℕ → Option (ℕ × Text)
decode_unicode_escape json i =
    if leb (length json) (i + 5)
    then some (0, [])
    else (stoul_16 (substr json (i + 2) 4) >>= λ cp. some (5, if ltb cp 128 then cp ∷ [] else []))

-- `escape_map`
abbrev pub escape_map : ℕ → Option ℕ
escape_map c =
    if c == b'n'
    then some b'\n'
    else if c == b't'
    then some b'\t'
    else if c == b'r'
    then some b'\r'
    else if c == b'b'
    then some 8
    else if c == b'f'
    then some 12
    else if c == b'"'
    then some b'"'
    else if c == b'\\'
    then some b'\\'
    else if c == b'/'
    then some b'/'
    else none

unfoldable pub decode_escape : Text → ℕ → Option (ℕ × Text)
decode_escape json i =
    if leb (length json) (i + 1) then some (0, []) else elim (escape_map (char_at json (i + 1))) [
      | some c ↦ some (1, c ∷ [])
      | none ↦ if char_at json (i + 1) == b'u' then decode_unicode_escape json i else some (0, [])
    ]

-- the backslashes that stand directly before a position
unfoldable pub backslashes : Text → ℕ → ℕ
backslashes json zero = 0
backslashes json (suc i) = if char_at json i == b'\\' then 1 + backslashes json i else 0

unfoldable pub is_end_quote : Text → ℕ → Bool
unfolding backslashes
is_end_quote json i = char_at json i == b'"' && backslashes json i % 2 == 0

-- a round of the loop: the next position, and the result so far
unfoldable pub read_char : Text → ℕ → Text → Option (ℕ × Text)
read_char json i result =
    if char_at json i == b'\\'
    then (decode_escape json i >>= λ d. some (
        if ltb 0 d.0
        then (i + d.0 + 1, result ++ d.1)
        else (i + 1, (result ++ d.1) ++ char_at json i ∷ [])))
    else some (i + 1, result ++ char_at json i ∷ [])

-- the loop behind the opening quote; each round moves on, so a round for each byte is enough
unfoldable pub read_string : Text → ℕ → ℕ → Text → Option Text
read_string json zero i result = some result
read_string json (suc rounds) i result = elim (ltb i (length json) && not (is_end_quote json i)) [
  | true ↦ elim (read_char json i result) [
    | none ↦ none
    | some (j, r) ↦ read_string json rounds j r
  ]
  | false ↦ some result
]

-- an unquoted value ends at a comma, a brace or a space
unfoldable pub read_bare : Text → Text
read_bare [] = []
read_bare (c ∷ s) = if c == b',' || c == b'}' || c == b' ' then [] else c ∷ read_bare s

unfoldable pub extract_at : Text → ℕ → Option Text
extract_at json pos =
    if leb (length json) pos
    then some []
    else if char_at json pos == b'"'
    then read_string json (length json - (pos + 1)) (pos + 1) []
    else if text_eq (substr json pos 4) (codes "null")
        || text_eq (substr json pos 4) (codes "true")
        || text_eq (substr json pos 5) (codes "false")
    then some []
    else some (read_bare (drop pos json))

unfoldable pub json_extract_string : Text → Text → Option Text
json_extract_string json key = elim (find_key_value json key) [
  | none ↦ some []
  | some pos ↦ extract_at json pos
]
