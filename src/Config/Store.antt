-- ===== src/Config/Store.antt =====
-- src/config/config.cpp: `validate_config`, `load_config`, `save_to_dotenv` and `host_display_name`.
use llama_cli.Base.Int.{ℤ, pos, negsuc}
use llama_cli.Base.Words.{getlines, rfind}
use llama_cli.Annotation.Numbers.{stoi}
use llama_cli.Config.Settings.{HostEntry, Config, default_config}
use llama_cli.Config.Dotenv.{load_dotenv, load_env}
use llama_cli.Config.Options.{load_cli}
use llama_cli.Base.{
  zero, suc, Bool, true, false, not, ◌||◌, Option, none, some, List, [], ◌∷◌, ◌++◌, ltb,
  if◌then◌else◌, take, Text, codes, is_empty, text_eq, starts_with,
}

abbrev pub is_positive : ℤ → Bool
is_positive (pos zero) = false
is_positive (pos (suc n)) = true
is_positive (negsuc n) = false

abbrev pub error_if : Bool → Text → List Text
error_if wrong text = if wrong then (codes "Error: " ++ text) ∷ [] else []

-- no number is the exception of `std::stoi`
unfoldable pub port_errors : Option ℤ → List Text
port_errors none = error_if true (codes "OLLAMA_PORT must be a valid number")
port_errors (some (pos p)) =
    error_if (ltb 65535 p) (codes "OLLAMA_PORT must be between 0 and 65535")
port_errors (some (negsuc p)) = error_if true (codes "OLLAMA_PORT must be between 0 and 65535")

-- the lines on the error stream; the settings are valid if there is none
unfoldable pub config_errors : Config → List Text
config_errors c =
    error_if (is_empty c.host) (codes "OLLAMA_HOST cannot be empty")
    ++ (error_if (is_empty c.model) (codes "OLLAMA_MODEL cannot be empty")
        ++ (error_if (not (is_positive c.timeout)) (codes "timeout must be positive")
            ++ (error_if (not (is_positive c.exec_timeout)) (codes "exec_timeout must be positive")
                ++ port_errors (stoi c.port))))

unfoldable pub validate_config : Config → Bool
validate_config c = is_empty (config_errors c)

abbrev pub setting_line : Text → Text → Text
setting_line key value = key ++ (codes "=" ++ value)

-- each line of the key replaced, and whether there was one
unfoldable pub replace_lines : Text → Text → List Text → List Text × Bool
replace_lines key value [] = ([], false)
replace_lines key value (line ∷ lines) =
    let (replaced, found) = replace_lines key value lines in
    if starts_with (key ++ codes "=") line
    then (setting_line key value ∷ replaced, true)
    else (line ∷ replaced, found)

unfoldable pub with_newlines : List Text → Text
with_newlines [] = []
with_newlines (line ∷ lines) = line ++ (b'\n' ∷ with_newlines lines)

-- the lines that are written: where no line was of the key, one more
unfoldable pub saved_lines : Text → Text → List Text → List Text
saved_lines key value lines =
    let (replaced, found) = replace_lines key value lines in
    if found then replaced else replaced ++ setting_line key value ∷ []

-- no content is a file that cannot be opened
unfoldable pub lines_of : Option Text → List Text
lines_of none = []
lines_of (some text) = getlines b'\n' text

-- the new content of the file, if it can be opened
unfoldable pub save_to_dotenv : Text → Text → Option Text → Text
save_to_dotenv key value content = with_newlines (saved_lines key value (lines_of content))

-- the loop of `host_display_name`
unfoldable pub display_from : List HostEntry → Text → Text → Text
display_from [] h host_port = host_port
display_from (e ∷ named) h host_port =
    if text_eq e.host h || text_eq e.host host_port || text_eq e.name h || text_eq e.ip h
    then (if is_empty e.note then e.name else e.name ++ (codes " (" ++ (e.note ++ codes ")")))
    else display_from named h host_port

unfoldable pub host_display_name : List HostEntry → Text → Text
host_display_name named host_port =
    display_from named
      (elim (rfind b':' host_port) [ none ↦ host_port | some colon ↦ take colon host_port ])
      host_port

-- The layers of the settings: the defaults, the environment, the file `.env`, the command line.
unfoldable pub merge_config : Text → (Text → Option Text) → Option Text → List Text → Option Config
merge_config default_system_prompt getenv dotenv args =
    load_cli args (load_dotenv dotenv (load_env getenv (default_config default_system_prompt)))

-- How the settings are loaded. `detect` is the probe of a server, `hosts` what the registry holds; the
-- result has the content that is written to the file `.env`, where the provider was detected.
unfoldable pub load_config :
    Text
    → (Text → Option Text)
    → Option Text
    → (Text → Text → Text)
    → List HostEntry
    → List Text
    → Option (Config × Option Text)
load_config default_system_prompt getenv dotenv detect named args =
    elim (merge_config default_system_prompt getenv dotenv args) [
      | none ↦ none
      | some c ↦
          if not (validate_config c)
          then none
          else if c.provider_explicit
          then some (record c { named_hosts = named }, none)
          else (let provider = detect c.host c.port in
              some (
                record c { provider = provider; named_hosts = named },
                some (save_to_dotenv (codes "LLAMA_PROVIDER") provider dotenv),
              ))
    ]
