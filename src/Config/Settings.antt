-- ===== src/Config/Settings.antt =====
-- src/config/config.h: `HostEntry`, `Mode` and `Config`, and of src/config/config.cpp the helpers that
-- read values, `safe_stoi` and `parse_host_port`. The warnings on the error stream are left out.
use llama_cli.Base.Int.{ℤ, pos}
use llama_cli.Base.Words.{rfind}
use llama_cli.Annotation.Numbers.{stoi}
use llama_cli.Base.{
  ◌+◌, ◌-◌, Bool, true, false, not, ◌&&◌, ◌||◌, none, some, List, [], ltb, ◌==◌, if◌then◌else◌,
  length, take, drop, Text, codes, is_empty, text_eq, char_at, substr, find,
}

pub record HostEntry : Type 0 where
  pub name : Text
  pub host : Text
  pub port : Text
  pub note : Text
  pub ip : Text

pub data Mode : Type 0 where
  interactive_mode : Mode
  sync_mode : Mode

pub record Config : Type 0 where
  pub auto_confirm_write : Bool
  pub provider : Text
  pub provider_explicit : Bool
  pub host : Text
  pub port : Text
  pub hosts : List Text
  pub named_hosts : List HostEntry
  pub model : Text
  pub timeout : ℤ
  pub exec_timeout : ℤ
  pub max_output : ℤ
  pub max_history : ℤ
  pub no_color : Bool
  pub mask_pii : Bool
  pub no_banner : Bool
  pub bofh : Bool
  pub trace : Bool
  pub warmup : Bool
  pub force_repl : Bool
  pub mode : Mode
  pub prompt_color : Text
  pub ai_color : Text
  pub prompt : Text
  pub files : List Text
  pub session_path : Text
  pub capabilities : Text
  pub sandbox : Text
  pub system_prompt_override : Bool
  pub allow_web_search : Bool
  pub search_url : Text
  pub search_lang : Text
  pub search_location : Text
  pub memory_path : Text
  pub nick : Text
  pub preferences_path : Text
  pub system_prompt : Text

-- the defaults; the system prompt is generated by the build
unfoldable pub default_config : Text → Config
default_config default_system_prompt = record {
  auto_confirm_write = false;
  provider = codes "tgpt";
  provider_explicit = false;
  host = codes "localhost";
  port = codes "11434";
  hosts = [];
  named_hosts = [];
  model = codes "auto";
  timeout = pos 120;
  exec_timeout = pos 300;
  max_output = pos 10000;
  max_history = pos 0;
  no_color = false;
  mask_pii = false;
  no_banner = false;
  bofh = false;
  trace = false;
  warmup = true;
  force_repl = false;
  mode = interactive_mode;
  prompt_color = codes "yellow";
  ai_color = codes "purple";
  prompt = [];
  files = [];
  session_path = [];
  capabilities = [];
  sandbox = codes ".";
  system_prompt_override = false;
  allow_web_search = false;
  search_url = codes "http://localhost:8888";
  search_lang = codes "en-US";
  search_location = [];
  memory_path = codes ".cache/llama-memory.md";
  nick = [];
  preferences_path = codes ".preferences/style.md";
  system_prompt = default_system_prompt;
}

unfoldable pub safe_stoi : Text → ℤ → ℤ
safe_stoi val fallback = elim (stoi val) [ none ↦ fallback | some n ↦ n ]

unfoldable pub is_set : Text → Bool
is_set val = text_eq val (codes "true") || text_eq val (codes "1")

-- a name in brackets, with a port behind them
unfoldable pub parse_bracketed : Text → Text × Text → Text × Text
parse_bracketed val (host, port) = elim (find (codes "]") val) [
  | none ↦ (drop 1 val, port)
  | some bracket ↦ (
    substr val 1 (bracket - 1),
    if ltb (bracket + 2) (length val) && char_at val (bracket + 1) == b':'
        then drop (bracket + 2) val
        else port,
  )
]

-- the host and the port, from those that stood there
unfoldable pub parse_host_port : Text → Text × Text → Text × Text
parse_host_port val (host, port) =
    if not (is_empty val) && char_at val 0 == b'['
    then parse_bracketed val (host, port)
    else elim (find (codes ":") val) [
      | none ↦ (val, port)
      | some first ↦ elim (rfind b':' val) [
        | none ↦ (val, port)
        | some last ↦ if first == last then (take first val, drop (first + 1) val) else (val, port)
      ]
    ]

unfoldable pub set_host_port : Text → Config → Config
set_host_port val c =
    let (host, port) = parse_host_port val (c.host, c.port) in record c { host = host; port = port }
