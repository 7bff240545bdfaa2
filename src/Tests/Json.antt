-- ===== src/Tests/Json.antt =====
-- src/json/json.cpp on concrete texts.
use llama_cli.Json.Escape.{escape_json, escape_byte, unescape_json, unescape-escape}
use llama_cli.Json.Scan.{find_key_value}
use llama_cli.Json.Strings.{
  json_extract_string, extract_at, read_string, read_char, decode_escape, decode_unicode_escape,
  stoul_16, is_end_quote, read_bare,
}
use llama_cli.Json.Numbers.{json_extract_int, max_int}
use llama_cli.Json.Braces.{json_extract_object, extract_braced, walk}
use llama_cli.Json.RoundTrip.{extract-escape, keyed, extract_int-value, value}
use llama_cli.Json.Objects.{extract_object-Balanced, Balanced, Contents}
use llama_cli.Base.{
  ◌≡◌, refl, none, some, [], ◌∷◌, ◌++◌, arith, leb, if◌then◌else◌, codes, text_eq, find,
}

reply :
    json_extract_string (codes "{\"a\":1,\"response\": \"x\\n\\\"y\\u0041\"}") (codes "response")
    ≡ some (codes "x\n\"yA")
unfolding json_extract_string find_key_value extract_at read_string read_char decode_escape
    decode_unicode_escape stoul_16 is_end_quote
reply = refl

bare_number : json_extract_string (codes "{\"port\":11434}") (codes "port") ≡ some (codes "11434")
unfolding json_extract_string find_key_value extract_at read_bare text_eq
bare_number = refl

-- `std::stoul` finds no digit
bad_unicode : json_extract_string (codes "{\"k\":\"\\uzzzz\"}") (codes "k") ≡ none
unfolding json_extract_string find_key_value extract_at read_string read_char decode_escape
    decode_unicode_escape stoul_16 is_end_quote
bad_unicode = refl

nested_object :
    json_extract_object (codes "{\"message\": {\"c\":\"}\",\"d\":{}}, \"x\":1}") (codes "message")
    ≡ codes "{\"c\":\"}\",\"d\":{}}"
unfolding json_extract_object find_key_value extract_braced walk
nested_object = refl

not_unescaped : unescape_json (escape_json (8 ∷ [])) ≡ codes "\\b"
unfolding unescape_json escape_json escape_byte
not_unescaped = refl

unescape-escape_example : unescape_json (escape_json (codes "a\"b\\\n")) ≡ codes "a\"b\\\n"
unescape-escape_example = unescape-escape (codes "a\"b\\\n") (omega arith)

extract-escape_example :
    json_extract_string
      (keyed
        (codes "{")
        (codes "content")
        (codes " ")
        (b'"' ∷ (escape_json (codes "say \"hi\"\\") ++ b'"' ∷ codes ",\"n\":1}")))
      (codes "content")
    ≡ some (codes "say \"hi\"\\")
extract-escape_example =
    extract-escape (codes "{") (codes "content") (codes " ") (codes ",\"n\":1}")
      (codes "say \"hi\"\\") (unfold find in refl) (refl, tt)

extract_int-value_example :
    json_extract_int
      (keyed (codes "{") (codes "eval_count") [] (b'4' ∷ (codes "2" ++ codes "}")))
      (codes "eval_count")
    ≡ (if leb (value 0 (codes "42")) max_int then some (value 0 (codes "42")) else none)
extract_int-value_example =
    extract_int-value (codes "{") (codes "eval_count") [] (codes "}") b'4' (codes "2")
      (unfold find in refl) tt (refl, (refl, tt)) refl

extract_object-Balanced_example :
    json_extract_object
      (keyed
        (codes "{")
        (codes "message")
        []
        (b'{' ∷ ((b'"' ∷ (codes "}" ++ b'"' ∷ [])) ++ b'}' ∷ codes ",\"done\":true}")))
      (codes "message")
    ≡ b'{' ∷ ((b'"' ∷ (codes "}" ++ b'"' ∷ [])) ++ b'}' ∷ [])
extract_object-Balanced_example =
    extract_object-Balanced (codes "{") (codes "message") [] (b'"' ∷ (codes "}" ++ b'"' ∷ []))
      (codes ",\"done\":true}") (unfold find in refl) tt
      (Balanced.quoted (Contents.char (omega arith) (omega arith) Contents.nil) Balanced.nil)
