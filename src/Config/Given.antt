-- ===== src/Config/Given.antt =====
-- Options of the command line that are written `--key=value`, and what `load_cli` of
-- src/config/config.cpp reads of them.
use llama_cli.Config.Settings.{Config}
use llama_cli.Config.Options.{
  opts, int_opts, option_value, next_value, match_long, is_short_flag, match_table,
  match_string_opts, match_int_opts, match_opts, load_arg, load_args,
}
use llama_cli.Base.{ℕ, ◌≡◌, refl, some, List, [], ◌∷◌, ◌++◌, map, Text, codes, text_eq, starts_with}

-- The options with a text.
pub data Field : Type 0 where
  provider_field : Field
  host_field : Field
  port_field : Field
  model_field : Field
  system_prompt_field : Field
  session_field : Field
  capabilities_field : Field
  sandbox_field : Field

abbrev pub option_name : Field → Text
option_name provider_field = codes "--provider="
option_name host_field = codes "--host="
option_name port_field = codes "--port="
option_name model_field = codes "--model="
option_name system_prompt_field = codes "--system-prompt="
option_name session_field = codes "--session="
option_name capabilities_field = codes "--capabilities="
option_name sandbox_field = codes "--sandbox="

abbrev pub put : Field → Text → Config → Config
put provider_field v c = record c { provider = v }
put host_field v c = record c { host = v }
put port_field v c = record c { port = v }
put model_field v c = record c { model = v }
put system_prompt_field v c = record c { system_prompt = v }
put session_field v c = record c { session_path = v }
put capabilities_field v c = record c { capabilities = v }
put sandbox_field v c = record c { sandbox = v }

-- a field, the first byte of its value, and the others
abbrev pub Given : Type 0
Given = Field × ℕ × Text

abbrev pub given_arg : Given → Text
given_arg (field, first, others) = option_name field ++ first ∷ others

abbrev pub put_all : List Given → Config → Config
put_all [] c = c
put_all ((field, first, others) ∷ given) c = put_all given (put field (first ∷ others) c)

load_arg-given :
    (field : Field) (first : ℕ) (others : Text) (rest : List Text) (c : Config)
    → load_arg (given_arg (field, first, others)) rest c ≡ some (0, put field (first ∷ others) c)
unfolding load_arg match_opts match_string_opts match_int_opts match_table opts int_opts
    option_value next_value match_long is_short_flag text_eq starts_with
load_arg-given provider_field first others rest c = refl
load_arg-given host_field first others rest c = refl
load_arg-given port_field first others rest c = refl
load_arg-given model_field first others rest c = refl
load_arg-given system_prompt_field first others rest c = refl
load_arg-given session_field first others rest c = refl
load_arg-given capabilities_field first others rest c = refl
load_arg-given sandbox_field first others rest c = refl

-- The options are read back in their order, the later over the earlier.
pub load_args-given :
    (given : List Given) (c : Config) → load_args (map given_arg given) 0 c ≡ some (put_all given c)
unfolding load_args
load_args-given [] c = refl
load_args-given ((field, first, others) ∷ given) c =
    rw (load_arg-given field first others (map given_arg given) c, load_args)
      (load_args-given given (put field (first ∷ others) c))
