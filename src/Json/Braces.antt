-- ===== src/Json/Braces.antt =====
-- src/json/json.cpp: `extract_braced`, `json_extract_object` and `json_extract_object_at`.
use llama_cli.Json.Scan.{find_key_value}
use llama_cli.Base.Int.{ℤ, pos, increment, decrement, is_zero}
use llama_cli.Base.{
  ℕ, ◌+◌, ◌-◌, Bool, true, false, not, ◌||◌, Option, none, some, [], ◌∷◌, leb, ◌==◌, if◌then◌else◌,
  length, drop, Text, char_at, substr,
}

-- The loop from position `i` on, over the bytes that are left: the position of the closing brace. The
-- depth is not bounded; as an `int` it would overflow behind 2 ^ 31 - 1 open braces.
unfoldable pub walk : Text → ℕ → ℤ → Bool → Bool → Option ℕ
walk [] i depth in_string escaped = none
walk (c ∷ s) i depth true true = walk s (1 + i) depth true false
walk (c ∷ s) i depth true false = walk s (1 + i) depth (c == b'\\' || not (c == b'"')) (c == b'\\')
walk (c ∷ s) i depth false escaped = elim (c == b'"') [
  | true ↦ walk s (1 + i) depth true escaped
  | false ↦ elim (c == b'{') [
    | true ↦ walk s (1 + i) (increment depth) false escaped
    | false ↦ elim (c == b'}') [
      | true ↦ elim (is_zero (decrement depth)) [
        | true ↦ some i
        | false ↦ walk s (1 + i) (decrement depth) false escaped
      ]
      | false ↦ walk s (1 + i) depth false escaped
    ]
  ]
]

unfoldable pub extract_braced : Text → ℕ → Text
unfolding walk
extract_braced json start = elim (walk (drop start json) start (pos 0) false false) [
  | none ↦ []
  | some i ↦ substr json start (i - start + 1)
]

unfoldable pub json_extract_object_at : Text → ℕ → Text
json_extract_object_at json start =
    if leb (length json) start || not (char_at json start == b'{')
    then []
    else extract_braced json start

unfoldable pub json_extract_object : Text → Text → Text
json_extract_object json key = elim (find_key_value json key) [
  | none ↦ []
  | some start ↦
      if leb (length json) start || not (char_at json start == b'{')
      then []
      else extract_braced json start
]
