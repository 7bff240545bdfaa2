-- ===== src/Agent/Config.antt =====
-- src/orchestrator/agent_config.cpp: `load_agent_configs`, `find_agent_config` and
-- `check_permission`. `none` is an exception that nothing catches: `substr` behind the end of a line,
-- or `std::stod`, which is an argument that gives the number as it is printed.
use llama_cli.Base.Words.{getlines, drop_while}
use llama_cli.Base.{
  ℕ, ◌+◌, Bool, true, false, not, ◌||◌, Option, none, some, List, [], ◌∷◌, ◌++◌, ltb, ◌==◌,
  if◌then◌else◌, ◌>>=◌, length, drop, Text, codes, is_empty, text_eq, char_at, starts_with, find,
}

pub data Permission : Type 0 where
  allow : Permission
  ask : Permission
  deny : Permission

pub data AgentMode : Type 0 where
  primary : AgentMode
  subagent : AgentMode

pub record AgentConfig : Type 0 where
  pub name : Text
  pub description : Text
  pub mode : AgentMode
  pub model : Text
  pub prompt_file : Text
  pub temperature : Text
  pub permissions : List (Text × Permission)

abbrev pub new_agent : AgentConfig
new_agent = record {
  name = [];
  description = [];
  mode = primary;
  model = [];
  prompt_file = [];
  temperature = codes "0.7";
  permissions = [];
}

unfoldable pub parse_permission : Text → Permission
parse_permission s =
    if text_eq s (codes "deny") then deny else if text_eq s (codes "ask") then ask else allow

-- `permissions[tool] = p`
unfoldable pub set_permission :
    Text → Permission → List (Text × Permission) → List (Text × Permission)
set_permission tool p [] = (tool, p) ∷ []
set_permission tool p ((key, q) ∷ rest) =
    if text_eq tool key then (key, p) ∷ rest else (key, q) ∷ set_permission tool p rest

unfoldable pub permission_of : Text → List (Text × Permission) → Option Permission
permission_of tool [] = none
permission_of tool ((key, p) ∷ rest) = if text_eq tool key then some p else permission_of tool rest

unfoldable pub check_permission : AgentConfig → Text → Permission
check_permission agent tool = elim (permission_of tool agent.permissions) [
  | some p ↦ p
  | none ↦ elim agent.mode [ primary ↦ allow | subagent ↦ ask ]
]

unfoldable pub find_agent_config : List AgentConfig → Text → Option AgentConfig
find_agent_config [] name = none
find_agent_config (a ∷ agents) name =
    if text_eq a.name name then some a else find_agent_config agents name

abbrev four_tools : Permission → Permission → Permission → Permission → List (Text × Permission)
four_tools r w s e =
    (codes "read", r) ∷ (codes "write", w) ∷ (codes "str_replace", s) ∷ (codes "exec", e) ∷ []

-- "Default agent — full tool access"; the dash is three bytes
unfoldable pub builtin_agents : List AgentConfig
builtin_agents =
    record {
      name = codes "build";
      description = codes "Default agent " ++ (226 ∷ 128 ∷ 148 ∷ codes " full tool access");
      mode = primary;
      model = [];
      prompt_file = codes "build.txt";
      temperature = codes "0.7";
      permissions = four_tools allow allow allow allow;
    }
    ∷ record {
      name = codes "plan";
      description = codes "Read-only analysis and planning";
      mode = primary;
      model = [];
      prompt_file = codes "plan.txt";
      temperature = codes "0.3";
      permissions = four_tools allow deny deny deny;
    }
    ∷ record {
      name = codes "general";
      description = codes "Multi-step task execution";
      mode = subagent;
      model = [];
      prompt_file = codes "general.txt";
      temperature = codes "0.5";
      permissions = four_tools allow allow allow ask;
    }
    ∷ record {
      name = codes "explore";
      description = codes "Read-only codebase exploration";
      mode = subagent;
      model = [];
      prompt_file = codes "explore.txt";
      temperature = codes "0.3";
      permissions = four_tools allow deny deny deny;
    }
    ∷ record {
      name = codes "reviewer";
      description = codes "Validate output from other agents";
      mode = subagent;
      model = [];
      prompt_file = codes "reviewer.txt";
      temperature = codes "0.1";
      permissions = four_tools allow deny deny deny;
    }
    ∷ []

-- `s.substr(n)`, which throws behind the end
unfoldable pub suffix : ℕ → Text → Option Text
suffix n s = if ltb (length s) n then none else some (drop n s)

-- the agents that are complete, and the one that is read
pub record Reading : Type 0 where
  pub agents : List AgentConfig
  pub current : AgentConfig
  pub in_agent : Bool

abbrev allowing : Text → Text → AgentConfig → AgentConfig
allowing tool value a = record a {
  permissions = set_permission tool (parse_permission value) a.permissions;
}

-- a key of the agent with its value
unfoldable pub read_field : (Text → Option Text) → Text → AgentConfig → Option AgentConfig
read_field stod s a =
    if starts_with (codes "description:") s
    then (suffix 13 s >>= λ v. some (record a { description = v }))
    else if starts_with (codes "mode:") s
    then (suffix 6 s >>= λ v.
        some (record a { mode = if text_eq v (codes "subagent") then subagent else primary }))
    else if starts_with (codes "model:") s
    then (suffix 7 s >>= λ v. some (record a { model = v }))
    else if starts_with (codes "prompt:") s
    then (suffix 8 s >>= λ v. some (record a { prompt_file = v }))
    else if starts_with (codes "temperature:") s
    then (suffix 13 s >>= λ v. stod v >>= λ t. some (record a { temperature = t }))
    else if starts_with (codes "read:") s
    then (suffix 6 s >>= λ v. some (allowing (codes "read") v a))
    else if starts_with (codes "write:") s
    then (suffix 7 s >>= λ v. some (allowing (codes "write") v a))
    else if starts_with (codes "str_replace:") s
    then (suffix 13 s >>= λ v. some (allowing (codes "str_replace") v a))
    else if starts_with (codes "exec:") s
    then (suffix 6 s >>= λ v. some (allowing (codes "exec") v a))
    else some a

unfoldable pub finish_agent : Reading → List AgentConfig
finish_agent r = if r.in_agent then r.agents ++ r.current ∷ [] else r.agents

-- what follows the first colon of a line and one byte more
unfoldable pub agent_name : Text → Option Text
agent_name line = find (codes ":") line >>= λ colon. suffix (colon + 2) line

unfoldable pub read_line : (Text → Option Text) → Reading → Text → Option Reading
read_line stod r line =
    if is_empty line || char_at line 0 == b'#' then some r else elim (find (codes "- name:") line) [
      | some at ↦ agent_name line >>= λ name. some (record {
        agents = finish_agent r;
        current = record new_agent { name = name };
        in_agent = true;
      })
      | none ↦
          let trimmed = drop_while (λ c. c == b' ' || c == b'\t') line in
          if not r.in_agent || is_empty trimmed
          then some r
          else read_field stod trimmed r.current >>= λ a. some (record r { current = a })
    ]

unfoldable pub read_lines : (Text → Option Text) → List Text → Reading → Option Reading
read_lines stod [] r = some r
read_lines stod (line ∷ lines) r = read_line stod r line >>= λ next. read_lines stod lines next

-- the text of a file
unfoldable pub parse_agents : (Text → Option Text) → Text → Option (List AgentConfig)
parse_agents stod file =
    read_lines stod (getlines b'\n' file)
      (record { agents = []; current = new_agent; in_agent = false })
    >>= λ r. some (finish_agent r)

-- The files that are looked for, in their order; one that is not there is `none`.
unfoldable pub load_agent_configs :
    (Text → Option Text) → List (Option Text) → Option (List AgentConfig)
load_agent_configs stod [] = some builtin_agents
load_agent_configs stod (none ∷ files) = load_agent_configs stod files
load_agent_configs stod (some file ∷ files) =
    let later = load_agent_configs stod files in
    parse_agents stod file >>= λ agents. elim agents [ [] ↦ later | a ∷ rest ↦ some (a ∷ rest) ]
