-- ===== src/Json/Scan.antt =====
-- src/json/json.cpp: `skip_ws` and `find_key_value`.
use llama_cli.Base.{
  ℕ, ◌+◌, Bool, ◌||◌, Option, some, [], ◌∷◌, ◌++◌, ◌==◌, if◌then◌else◌, ◌>>=◌, length, drop, Text,
  codes, find_from,
}

abbrev pub is_space : ℕ → Bool
is_space c = c == b' ' || c == b'\t' || c == b'\n' || c == b'\r'

-- how many bytes at the front are white space
unfoldable pub blanks : Text → ℕ
blanks [] = 0
blanks (c ∷ s) = if is_space c then 1 + blanks s else 0

unfoldable pub skip_ws : Text → ℕ → ℕ
unfolding blanks
skip_ws json pos = pos + blanks (drop pos json)

abbrev pub needle : Text → Text
needle key = b'"' ∷ (key ++ codes "\":")

-- the position behind `"key":` and the white space there
unfoldable pub find_key_value : Text → Text → Option ℕ
unfolding skip_ws find_from
find_key_value json key = do
  pos ← find_from (needle key) json 0
  some (skip_ws json (pos + length (needle key)))
