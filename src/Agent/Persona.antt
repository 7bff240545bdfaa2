-- ===== src/Agent/Persona.antt =====
-- src/agent/agent.cpp: personas. The temperature stays the text that `std::stod` reads, empty for the
-- default. The contents of the two files are arguments.
use llama_cli.Base.Words.{getlines, drop_while}
use llama_cli.Planner.Classify.{to_lower}
use llama_cli.Base.{
  ℕ, ◌+◌, Bool, true, false, not, ◌&&◌, ◌||◌, Option, none, some, List, [], ◌∷◌, ◌++◌, ◌==◌,
  if◌then◌else◌, length, drop, Text, codes, is_empty, text_eq, char_at, starts_with, find,
}

pub record AgentPersona : Type 0 where
  pub name : Text
  pub description : Text
  pub system_prompt : Text
  pub temperature : Text

abbrev pub no_persona : AgentPersona
no_persona = record { name = []; description = []; system_prompt = []; temperature = [] }

abbrev is_space : ℕ → Bool
is_space c = c == b' ' || (c == 9 || (c == 13 || c == b'\n'))

unfoldable pub drop_space_end : Text → Text
drop_space_end [] = []
drop_space_end (c ∷ s) =
    let rest = drop_space_end s in if is_empty rest && is_space c then [] else c ∷ rest

unfoldable pub trim_spaces : Text → Text
trim_spaces s = drop_space_end (drop_while is_space s)

-- the text behind the first `key:`
unfoldable pub extract_value : Text → Text → Text
extract_value line key = elim (find (key ++ codes ":") line) [
  | none ↦ []
  | some at ↦ trim_spaces (drop (at + length key + 1) line)
]

pub record PersonaReading : Type 0 where
  pub personas : List AgentPersona
  pub current : AgentPersona
  pub in_multiline : Bool
  pub has_current : Bool

-- a line `key: value` of a persona; `|` opens a block
unfoldable pub read_key_value : Text → PersonaReading → PersonaReading
read_key_value trimmed s =
    if starts_with (codes "description:") trimmed
    then record s {
      current = record s.current { description = extract_value trimmed (codes "description") };
    }
    else if starts_with (codes "system_prompt:") trimmed
    then (let val = extract_value trimmed (codes "system_prompt") in
        if text_eq val (codes "|")
        then record s { in_multiline = true; current = record s.current { system_prompt = [] } }
        else record s { current = record s.current { system_prompt = val } })
    else if starts_with (codes "temperature:") trimmed
    then record s {
      current = record s.current { temperature = extract_value trimmed (codes "temperature") };
    }
    else s

-- what is pushed: the persona that was read
unfoldable pub push_current : PersonaReading → List AgentPersona
push_current s = if s.has_current then s.personas ++ s.current ∷ [] else s.personas

-- a line of the file
unfoldable pub read_persona_line : PersonaReading → Text → PersonaReading
read_persona_line s line =
    if not s.in_multiline && (is_empty line || char_at line 0 == b'#')
    then s
    else elim (find (codes "- name:") line) [
      | some at ↦ record {
        personas = push_current s;
        current = record no_persona { name = extract_value line (codes "- name") };
        in_multiline = false;
        has_current = true;
      }
      | none ↦
          if s.in_multiline && starts_with (codes "    ") line
          then record s {
            current = record s.current {
              system_prompt = s.current.system_prompt ++ (drop 4 line ++ codes "\n");
            };
          }
          else read_key_value (trim_spaces line) (record s { in_multiline = false })
    ]

unfoldable pub read_persona_lines : List Text → PersonaReading → PersonaReading
read_persona_lines [] s = s
read_persona_lines (line ∷ lines) s = read_persona_lines lines (read_persona_line s line)

unfoldable pub parse_personas : Text → List AgentPersona
parse_personas yaml_content = push_current (
    read_persona_lines (getlines b'\n' yaml_content)
      (record { personas = []; current = no_persona; in_multiline = false; has_current = false }))

-- a file that is not there reads as nothing; the user's comes first, if there is a home
unfoldable pub load_personas : Option Text → Text → List AgentPersona
load_personas user bundled =
    let own : Text = elim user [ none ↦ [] | some content ↦ content ] in
    if not (is_empty own)
    then parse_personas own
    else if not (is_empty bundled)
    then parse_personas bundled
    else []

unfoldable pub find_persona : List AgentPersona → Text → Option AgentPersona
find_persona [] name = none
find_persona (p ∷ personas) name =
    if text_eq (to_lower p.name) (to_lower name) then some p else find_persona personas name
