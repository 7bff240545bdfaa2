-- ===== src/Config/Options.antt =====
-- src/config/config.cpp: the options of the command line, `load_cli`. The arguments are those behind the
-- name of the program; `taken` counts those behind `arg` that an option has taken, `i` of the source.
use llama_cli.Base.Int.{ℤ}
use llama_cli.Config.Settings.{Config, sync_mode, safe_stoi}
use llama_cli.Base.{
  ℕ, zero, suc, ◌+◌, ◌-◌, Bool, true, false, not, ◌&&◌, ◌||◌, Option, none, some, List, [], ◌∷◌,
  ◌++◌, ltb, leb, ◌==◌, if◌then◌else◌, length, get_or, drop, Text, codes, is_empty, text_eq,
  char_at, substr, starts_with,
}

-- A row of the tables: the prefix of the long form, the short form, the field.
pub record OptDef (A : Type 0) : Type 0 where
  pub long_prefix : Text
  pub short_flag : Option Text
  pub field : Config → A
  pub store : A → Config → Config

abbrev option_of :
    {A : Type 0} → Text → Option Text → (Config → A) → (A → Config → Config) → OptDef A
option_of long_prefix short_flag field store = record {
  long_prefix = long_prefix;
  short_flag = short_flag;
  field = field;
  store = store;
}

unfoldable pub opts : List (OptDef Text)
opts =
    option_of (codes "--provider=") none (λ c. c.provider) (λ v c. record c { provider = v })
    ∷ option_of (codes "--host=") (some (codes "-h")) (λ c. c.host) (λ v c. record c { host = v })
    ∷ option_of (codes "--port=") (some (codes "-p")) (λ c. c.port) (λ v c. record c { port = v })
    ∷ option_of (codes "--model=") (some (codes "-m")) (λ c. c.model)
        (λ v c. record c { model = v })
    ∷ option_of (codes "--system-prompt=") none (λ c. c.system_prompt)
        (λ v c. record c { system_prompt = v })
    ∷ option_of (codes "--session=") none (λ c. c.session_path)
        (λ v c. record c { session_path = v })
    ∷ option_of (codes "--capabilities=") none (λ c. c.capabilities)
        (λ v c. record c { capabilities = v })
    ∷ option_of (codes "--sandbox=") none (λ c. c.sandbox) (λ v c. record c { sandbox = v })
    ∷ []

unfoldable pub int_opts : List (OptDef ℤ)
int_opts =
    option_of (codes "--timeout=") (some (codes "-t")) (λ c. c.timeout)
      (λ v c. record c { timeout = v })
    ∷ option_of (codes "--exec-timeout=") none (λ c. c.exec_timeout)
        (λ v c. record c { exec_timeout = v })
    ∷ option_of (codes "--max-output=") none (λ c. c.max_output)
        (λ v c. record c { max_output = v })
    ∷ option_of (codes "--max-history=") none (λ c. c.max_history)
        (λ v c. record c { max_history = v })
    ∷ []

unfoldable pub match_long : Text → Text → Text
match_long arg prefix = if starts_with prefix arg then drop (length prefix) arg else []

-- the next argument if the flag is `arg` and no value was found yet
unfoldable pub next_value : Bool → List Text → Text × ℕ → Text × ℕ
next_value flag rest (val, taken) =
    if is_empty val && (flag && ltb taken (length rest))
    then (get_or rest taken [], taken + 1)
    else (val, taken)

unfoldable pub is_short_flag : Option Text → Text → Bool
is_short_flag none arg = false
is_short_flag (some flag) arg = text_eq arg flag

abbrev bare : Text → Text
bare prefix = substr prefix 0 (length prefix - 1)

-- the value of an option: `--key=value`, `-k value` or `--key value`
unfoldable pub option_value : {A : Type 0} → OptDef A → Text → List Text → ℕ → Text × ℕ
option_value opt arg rest taken =
    next_value (text_eq arg (bare opt.long_prefix)) rest
      (next_value (is_short_flag opt.short_flag arg) rest (match_long arg opt.long_prefix, taken))

-- the loop over a table: whether an option matched, what is taken, and the settings
unfoldable pub match_table :
    {A : Type 0}
    → (Text → A → A)
    → List (OptDef A)
    → Text
    → List Text
    → ℕ
    → Config
    → Bool × ℕ × Config
match_table convert [] arg rest taken c = (false, taken, c)
match_table convert (opt ∷ table) arg rest taken c =
    let (val, now) = option_value opt arg rest taken in
    let later = match_table convert table arg rest now c in
    if is_empty val then later else (true, now, opt.store (convert val (opt.field c)) c)

unfoldable pub match_string_opts : Text → List Text → ℕ → Config → Bool × ℕ × Config
match_string_opts arg rest taken c = match_table (λ val old. val) opts arg rest taken c

unfoldable pub match_int_opts : Text → List Text → ℕ → Config → Bool × ℕ × Config
match_int_opts arg rest taken c = match_table safe_stoi int_opts arg rest taken c

unfoldable pub match_opts : Text → List Text → Config → Bool × ℕ × Config
match_opts arg rest c =
    let (found, taken, c₁) = match_string_opts arg rest 0 c in
    if found then (true, taken, c₁) else match_int_opts arg rest taken c₁

unfoldable pub get_files_value : Text → List Text → ℕ → Text × ℕ
get_files_value arg rest taken =
    next_value (text_eq arg (codes "--files")) rest (match_long arg (codes "--files="), taken)

-- the words of a text, `iss >> path`
unfoldable pub words_from : Text → Text → List Text
words_from [] word = if is_empty word then [] else word ∷ []
words_from (c ∷ s) word = elim (c == b' ' || (leb 9 c && leb c 13)) [
  | false ↦ words_from s (word ++ c ∷ [])
  | true ↦ (if is_empty word then [] else word ∷ []) ++ words_from s []
]

-- `none` is the error of a flag without a value
unfoldable pub parse_files_flag : Text → List Text → ℕ → Config → Option (ℕ × Config)
parse_files_flag arg rest taken c =
    let (files_val, now) = get_files_value arg rest taken in
    if is_empty files_val
    then (if starts_with (codes "--files") arg then none else some (now, c))
    else (let files = c.files ++ words_from files_val [] in
        some (now, record c { files = files; mode = if is_empty files then c.mode else sync_mode }))

-- a flag that stands alone
unfoldable pub match_flag : Text → Config → Option Config
match_flag arg c =
    if text_eq arg (codes "--no-color")
    then some (record c { no_color = true })
    else if text_eq arg (codes "--mask-pii")
    then some (record c { mask_pii = true })
    else if text_eq arg (codes "--no-banner")
    then some (record c { no_banner = true })
    else if text_eq arg (codes "--why-so-serious")
    then some (record c { bofh = true })
    else if text_eq arg (codes "--repl")
    then some (record c { force_repl = true })
    else if text_eq arg (codes "--web-search")
    then some (record c { allow_web_search = true })
    else none

-- the first argument that is no option is the prompt
unfoldable pub positional : Text → Config → Config
positional arg c =
    if not (char_at arg 0 == b'-') && is_empty c.prompt
    then record c { prompt = arg; mode = sync_mode }
    else c

-- what an argument does, with the arguments it takes
unfoldable pub load_arg : Text → List Text → Config → Option (ℕ × Config)
load_arg arg rest c =
    let (found, taken, c₁) = match_opts arg rest c in
    if found then some (taken, c₁) else elim (match_flag arg c₁) [
      | some c₂ ↦ some (taken, c₂)
      | none ↦ elim (parse_files_flag arg rest taken c₁) [
        | none ↦ none
        | some (now, c₂) ↦ some (now, positional arg c₂)
      ]
    ]

-- the loop over the arguments, of which the first `skip` are taken
unfoldable pub load_args : List Text → ℕ → Config → Option Config
load_args [] skip c = some c
load_args (arg ∷ rest) (suc skip) c = load_args rest skip c
load_args (arg ∷ rest) zero c = elim (load_arg arg rest c) [
  | none ↦ none
  | some (taken, c₁) ↦ load_args rest taken c₁
]

-- what was set explicitly, seen by a value that differs
unfoldable pub marked : Config → Config → Config
marked base c = record c {
  system_prompt_override =
      c.system_prompt_override || not (text_eq c.system_prompt base.system_prompt);
  provider_explicit = c.provider_explicit || not (text_eq c.provider base.provider);
}

-- `none` is `exit(1)`
unfoldable pub load_cli : List Text → Config → Option Config
load_cli args base = elim (load_args args 0 base) [ none ↦ none | some c ↦ some (marked base c) ]
