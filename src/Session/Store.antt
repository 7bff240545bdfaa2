-- ===== src/Session/Store.antt =====
-- src/session/session.cpp: `save_session` and `load_session` on the text of the file. `none` is an
-- exception: a position before the text, or one of `json_extract_string`.
use llama_cli.Base.Collect.{collect}
use llama_cli.Json.Escape.{escape_json, unescape_json}
use llama_cli.Json.Strings.{json_extract_string}
use llama_cli.Provider.Message.{Message}
use llama_cli.Base.{
  ℕ, ◌+◌, ◌-◌, Option, none, some, List, [], ◌∷◌, ◌++◌, ◌==◌, if◌then◌else◌, ◌>>=◌, length, drop,
  Text, codes, is_empty, find_from,
}

unfoldable pub saved_object : Message → Text
saved_object m =
    codes "{\"role\":\""
    ++ (m.role ++ (codes "\",\"content\":\"" ++ (escape_json m.content ++ codes "\"}")))

unfoldable pub saved_lines : List Message → Text
saved_lines [] = []
saved_lines (m ∷ []) = codes "  " ++ (saved_object m ++ codes "\n")
saved_lines (m ∷ next ∷ msgs) =
    codes "  " ++ (saved_object m ++ (codes ",\n" ++ saved_lines (next ∷ msgs)))

unfoldable pub save_session : List Message → Text
save_session msgs = codes "[\n" ++ (saved_lines msgs ++ codes "]\n")

abbrev pub role_key : Text
role_key = codes "\"role\""

-- the positions of all keys, with a round for each byte and one more
unfoldable pub role_step : Text → ℕ → Option (ℕ × List ℕ)
role_step json at = find_from role_key json at >>= λ i. some (i + 6, i ∷ [])

unfoldable pub role_positions : Text → Option (List ℕ)
role_positions json = collect (role_step json) (length json + 1) 0

-- a round of the loop at `json.substr(pos - 1)`
unfoldable pub load_object : Text → Option (List Message)
load_object rest = do
  role ← json_extract_string rest (codes "role")
  content ← json_extract_string rest (codes "content")
  some (
      if is_empty role
      then []
      else record { role = role; content = unescape_json content; rating = []; images = [] } ∷ [])

unfoldable pub load_each : Text → List ℕ → Option (List Message)
load_each json [] = some []
load_each json (at ∷ positions) =
    let later = load_each json positions in
    if at == 0
    then none
    else load_object (drop (at - 1) json) >>= λ found. later >>= λ msgs. some (found ++ msgs)

-- the messages of a file, none if there is no file
unfoldable pub load_session : Option Text → Option (List Message)
load_session none = some []
load_session (some json) = do positions ← role_positions json; load_each json positions
