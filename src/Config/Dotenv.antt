-- ===== src/Config/Dotenv.antt =====
-- src/config/config.cpp: `load_dotenv` and `load_env`.
use llama_cli.Base.Int.{pos}
use llama_cli.Base.Words.{getlines}
use llama_cli.Config.Settings.{Config, safe_stoi, is_set, set_host_port}
use llama_cli.Base.{
  ℕ, ◌+◌, ◌-◌, Bool, true, ◌&&◌, ◌||◌, Option, none, some, List, [], ◌∷◌, leb, ◌==◌, if◌then◌else◌,
  length, take, drop, Text, codes, is_empty, text_eq, char_at, substr, find,
}

-- the value up to a `#` outside of quotes
unfoldable pub strip_comment : Option ℕ → Text → Text
strip_comment quote [] = []
strip_comment none (c ∷ val) =
    if c == b'"' || c == 39
    then c ∷ strip_comment (some c) val
    else if c == b'#'
    then []
    else c ∷ strip_comment none val
strip_comment (some q) (c ∷ val) = c ∷ strip_comment (if c == q then none else some q) val

abbrev ends_in : Text → ℕ → Bool
ends_in val c = char_at val 0 == c && char_at val (length val - 1) == c

unfoldable pub strip_quotes : Text → Text
strip_quotes val =
    if leb 2 (length val) && (ends_in val b'"' || ends_in val 39)
    then substr val 1 (length val - 2)
    else val

abbrev is_c_space : ℕ → Bool
is_c_space c = c == b' ' || (leb 9 c && leb c 13)

unfoldable pub trim_space_end : Text → Text
trim_space_end [] = []
trim_space_end (c ∷ s) =
    let rest = trim_space_end s in if is_empty rest && is_c_space c then [] else c ∷ rest

-- `key=value`, the value as the settings see it; no line that is empty or a comment
unfoldable pub read_line : Text → Option (Text × Text)
read_line line =
    if is_empty line || char_at line 0 == b'#' then none else elim (find (codes "=") line) [
      | none ↦ none
      | some eq ↦
          some
            (take eq line, trim_space_end (strip_quotes (strip_comment none (drop (eq + 1) line))))
    ]

unfoldable pub filled : List Text → List Text
filled [] = []
filled (token ∷ tokens) = if is_empty token then filled tokens else token ∷ filled tokens

-- what a value sets, by its name
abbrev pub Setting : Type 0
Setting = Text × (Text → Config → Config)

-- the chain of keys of `load_dotenv`, of which the first that fits counts
abbrev pub dotenv_settings : List Setting
dotenv_settings =
    (codes "OLLAMA_HOST", λ val c. set_host_port val c)
    ∷ (codes "OLLAMA_HOSTS", λ val c. record c { hosts = filled (getlines b',' val) })
    ∷ (codes "OLLAMA_PORT", λ val c. record c { port = val })
    ∷ (codes "OLLAMA_MODEL", λ val c. record c { model = val })
    ∷ (codes "OLLAMA_TIMEOUT", λ val c. record c { timeout = safe_stoi val (pos 120) })
    ∷ (codes "LLAMA_EXEC_TIMEOUT", λ val c. record c { exec_timeout = safe_stoi val (pos 300) })
    ∷ (codes "LLAMA_MAX_OUTPUT", λ val c. record c { max_output = safe_stoi val (pos 10000) })
    ∷ (codes "LLAMA_MAX_HISTORY", λ val c. record c { max_history = safe_stoi val (pos 0) })
    ∷ (
      codes "OLLAMA_SYSTEM_PROMPT",
      λ val c. record c { system_prompt = val; system_prompt_override = true },
    )
    ∷ (codes "LLAMA_PROVIDER", λ val c. record c { provider = val; provider_explicit = true })
    ∷ (codes "LLAMA_PROMPT_COLOR", λ val c. record c { prompt_color = val })
    ∷ (codes "LLAMA_AI_COLOR", λ val c. record c { ai_color = val })
    ∷ (codes "NO_COLOR", λ val c. record c { no_color = true })
    ∷ (codes "LLAMA_MASK_PII", λ val c. record c { mask_pii = is_set val })
    ∷ (codes "LLAMA_NO_BANNER", λ val c. record c { no_banner = is_set val })
    ∷ (codes "TRACE", λ val c. record c { trace = is_set val })
    ∷ (codes "LLAMA_WARMUP", λ val c. record c { warmup = is_set val })
    ∷ (codes "ALLOW_WEB_SEARCH", λ val c. record c { allow_web_search = is_set val })
    ∷ (codes "LLAMA_SEARCH_URL", λ val c. record c { search_url = val })
    ∷ (codes "LLAMA_SEARCH_LANG", λ val c. record c { search_lang = val })
    ∷ (codes "LLAMA_SEARCH_LOCATION", λ val c. record c { search_location = val })
    ∷ []

unfoldable pub set_first : List Setting → Text → Text → Config → Config
set_first [] key val c = c
set_first ((name, store) ∷ settings) key val c =
    if text_eq key name then store val c else set_first settings key val c

unfoldable pub set_key : Text → Text → Config → Config
set_key key val c = set_first dotenv_settings key val c

unfoldable pub load_line : Text → Config → Config
load_line line c = elim (read_line line) [ none ↦ c | some (key, val) ↦ set_key key val c ]

unfoldable pub load_lines : List Text → Config → Config
load_lines [] c = c
load_lines (line ∷ lines) c = load_lines lines (load_line line c)

-- no content is a file that cannot be opened
unfoldable pub load_dotenv : Option Text → Config → Config
load_dotenv none c = c
load_dotenv (some content) c = load_lines (getlines b'\n' content) c

-- a variable of the environment, if it is there
unfoldable pub env_set : Option Text → (Text → Config → Config) → Config → Config
env_set none store c = c
env_set (some val) store c = store val c

unfoldable pub default_nick : (Text → Option Text) → Config → Config
default_nick getenv c =
    if is_empty c.nick
    then record c {
      nick = elim (getenv (codes "USER")) [
        | some login ↦ login
        | none ↦ elim (getenv (codes "LOGNAME")) [ some login ↦ login | none ↦ codes "user" ]
      ];
    }
    else c

-- what a variable of the environment sets, each where it is there, in this order
abbrev pub env_settings : List Setting
env_settings =
    (codes "LLAMA_PROVIDER", λ val c. record c { provider = val; provider_explicit = true })
    ∷ (codes "OLLAMA_HOST", λ val c. set_host_port val c)
    ∷ (codes "OLLAMA_PORT", λ val c. record c { port = val })
    ∷ (codes "OLLAMA_MODEL", λ val c. record c { model = val })
    ∷ (codes "OLLAMA_TIMEOUT", λ val c. record c { timeout = safe_stoi val (pos 120) })
    ∷ (codes "LLAMA_EXEC_TIMEOUT", λ val c. record c { exec_timeout = safe_stoi val (pos 300) })
    ∷ (codes "LLAMA_MAX_OUTPUT", λ val c. record c { max_output = safe_stoi val (pos 10000) })
    ∷ (codes "LLAMA_MAX_HISTORY", λ val c. record c { max_history = safe_stoi val (pos 0) })
    ∷ (
      codes "OLLAMA_SYSTEM_PROMPT",
      λ val c. record c { system_prompt = val; system_prompt_override = true },
    )
    ∷ (codes "NO_COLOR", λ val c. record c { no_color = true })
    ∷ (codes "LLAMA_MASK_PII", λ val c. record c { mask_pii = true })
    ∷ (codes "LLAMA_NO_BANNER", λ val c. record c { no_banner = true })
    ∷ (codes "TRACE", λ val c. record c { trace = true })
    ∷ (codes "LLAMA_WARMUP", λ val c. record c { warmup = is_set val })
    ∷ (codes "ALLOW_WEB_SEARCH", λ val c. record c { allow_web_search = is_set val })
    ∷ (codes "LLAMA_SEARCH_URL", λ val c. record c { search_url = val })
    ∷ (codes "LLAMA_SEARCH_LANG", λ val c. record c { search_lang = val })
    ∷ (codes "LLAMA_SEARCH_LOCATION", λ val c. record c { search_location = val })
    ∷ (codes "LLAMA_PROMPT_COLOR", λ val c. record c { prompt_color = val })
    ∷ (codes "LLAMA_AI_COLOR", λ val c. record c { ai_color = val })
    ∷ []

unfoldable pub load_variables : (Text → Option Text) → List Setting → Config → Config
load_variables getenv [] c = c
load_variables getenv ((name, store) ∷ settings) c =
    load_variables getenv settings (env_set (getenv name) store c)

unfoldable pub load_env : (Text → Option Text) → Config → Config
load_env getenv defaults = load_variables getenv env_settings (default_nick getenv defaults)
