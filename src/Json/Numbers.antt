-- ===== src/Json/Numbers.antt =====
-- src/json/json.cpp: `json_extract_int`. `none` is the signed overflow of `result`, which C++ leaves
-- undefined.
use llama_cli.Json.Scan.{find_key_value}
use llama_cli.Base.{
  ℕ, ◌+◌, ◌-◌, ◌*◌, ◌^◌, Bool, true, false, ◌&&◌, Option, none, some, [], ◌∷◌, leb, drop, Text,
}

abbrev pub max_int : ℕ
max_int = 2 ^ 31 - 1

abbrev pub is_digit : ℕ → Bool
is_digit c = leb b'0' c && leb c b'9'

unfoldable pub read_int : Text → ℕ → Option ℕ
read_int [] result = some result
read_int (c ∷ s) result = elim (is_digit c) [
  | true ↦ elim (leb (result * 10 + (c - b'0')) max_int) [
    | true ↦ read_int s (result * 10 + (c - b'0'))
    | false ↦ none
  ]
  | false ↦ some result
]

unfoldable pub json_extract_int : Text → Text → Option ℕ
json_extract_int json key = elim (find_key_value json key) [
  | none ↦ some 0
  | some pos ↦ read_int (drop pos json) 0
]
