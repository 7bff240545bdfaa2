-- ===== src/Tests/Config.antt =====
-- src/config on concrete settings.
use llama_cli.Base.Words.{rfind, getlines_from, getlines}
use llama_cli.Config.Settings.{HostEntry, Config, default_config, set_host_port, parse_host_port}
use llama_cli.Config.Dotenv.{
  read_line, strip_comment, strip_quotes, trim_space_end, set_first, set_key, load_line, load_lines,
  load_dotenv,
}
use llama_cli.Config.Store.{
  save_to_dotenv, validate_config, host_display_name, display_from, replace_lines, saved_lines,
  lines_of, with_newlines,
}
use llama_cli.Config.View.{clean, update, view}
use llama_cli.Config.Refines.{save_to_dotenv-update}
use llama_cli.Config.Valid.{IsValid, validate_config-IsValid}
use llama_cli.Config.Given.{Given, model_field}
use llama_cli.Base.{
  ◌≡◌, refl, ◌↔◌, true, some, List, [], ◌∷◌, arith, Text, codes, text_eq, starts_with, find,
}

abbrev dotenv : Text
dotenv = codes "# local\nOLLAMA_MODEL=\"llama3\" # best\nOLLAMA_HOST=box:99\n"

loaded_host : (load_dotenv (some dotenv) (default_config [])).port ≡ codes "99"
unfolding load_dotenv load_lines load_line read_line set_key set_first text_eq find starts_with
    getlines getlines_from strip_comment strip_quotes trim_space_end set_host_port parse_host_port
    rfind default_config
loaded_host = refl

saved : save_to_dotenv (codes "A") (codes "2") (some (codes "B=0\nA=1")) ≡ codes "B=0\nA=2\n"
unfolding save_to_dotenv saved_lines replace_lines lines_of with_newlines getlines getlines_from
    starts_with
saved = refl

abbrev friday : HostEntry
friday = record {
  name = codes "friday";
  host = codes "10.0.0.2";
  port = codes "11434";
  note = codes "mac";
  ip = [];
}

display : host_display_name (friday ∷ []) (codes "10.0.0.2:11434") ≡ codes "friday (mac)"
unfolding host_display_name display_from text_eq rfind
display = refl

save_to_dotenv-update_example :
    view (some (save_to_dotenv (codes "K") (codes "new") (some dotenv)))
    ≡ update (codes "K") (clean (codes "new")) (view (some dotenv))
save_to_dotenv-update_example =
    save_to_dotenv-update (codes "K") (codes "new") (some dotenv)
      (record { no_equals = (omega arith, tt); no_newline = (omega arith, tt); no_comment = refl })
      (omega arith, (omega arith, (omega arith, tt)))

validate_config-IsValid_example :
    (validate_config (default_config []) ≡ true) ↔ IsValid (default_config [])
validate_config-IsValid_example = validate_config-IsValid (default_config [])

abbrev given : List Given
given = (model_field, b'x', codes "y") ∷ []
