-- ===== src/Config/Precedence.antt =====
-- Which layer gives the model: the composition of `load_env`, `load_dotenv` and `load_cli` in
-- `load_config` of src/config/config.cpp.
use llama_cli.Config.Settings.{Config}
use llama_cli.Config.View.{later}
use llama_cli.Config.Given.{model_field, Given}
use llama_cli.Base.{Option, none, some, List, [], ◌∷◌, Text}

-- the last model that is given
abbrev pub given_model : List Given → Option Text
given_model [] = none
given_model ((model_field, first, others) ∷ given) =
    later (given_model given) (some (first ∷ others))
given_model ((_, first, others) ∷ given) = given_model given
