-- ===== src/Repl/Switch.antt =====
-- src/repl/repl_commands.cpp: `/use`, which chooses among the models of the registry.
use llama_cli.Provider.Registry.{ModelEntry}
use llama_cli.Config.Settings.{Config}
use llama_cli.Repl.Console.{Desk}
use llama_cli.Repl.Panel.{Outside, Panel, say, with_config}
use llama_cli.Base.{
  ◌+◌, Bool, true, false, ◌&&◌, ◌||◌, Option, none, some, List, [], ◌∷◌, ◌++◌, ◌==◌, if◌then◌else◌,
  take, drop, Text, codes, is_empty, text_eq, char_at, starts_with, find,
}

-- what `/use` asks for; an empty part fits all
pub record Wanted : Type 0 where
  pub host_part : Text
  pub prov_part : Text
  pub model_part : Text

-- `provider:model`, or a model
unfoldable pub with_model : Text → Text → Wanted
with_model host_part input = elim (find (codes ":") input) [
  | none ↦ record { host_part = host_part; prov_part = []; model_part = input }
  | some colon ↦ record {
    host_part = host_part;
    prov_part = take colon input;
    model_part = drop (colon + 1) input;
  }
]

unfoldable pub parse_wanted : Text → Wanted
parse_wanted input =
    if char_at input 0 == b'@'
    then elim (find (codes ":") (drop 1 input)) [
      | none ↦ record { host_part = drop 1 input; prov_part = []; model_part = [] }
      | some colon ↦ with_model (take colon (drop 1 input)) (drop (colon + 1) (drop 1 input))
    ]
    else with_model [] input

abbrev pub is_part_of : Text → Text → Bool
is_part_of part s = elim (find part s) [ none ↦ false | some at ↦ true ]

abbrev pub fits : Wanted → ModelEntry → Bool
fits wanted m =
    (is_empty wanted.host_part || is_part_of wanted.host_part m.host)
    && ((is_empty wanted.prov_part || text_eq m.provider wanted.prov_part)
        && ((is_empty wanted.model_part
              || (text_eq m.name wanted.model_part || starts_with wanted.model_part m.name))
            && m.available))

-- the first that passes a test
unfoldable pub first_model : (ModelEntry → Bool) → List ModelEntry → Option ModelEntry
first_model test [] = none
first_model test (m ∷ models) = if test m then some m else first_model test models

-- host and port of a model that is not in the cloud
unfoldable pub on_host : ModelEntry → Config → Config
on_host m c = if text_eq m.host (codes "cloud") then c else elim (find (codes ":") m.host) [
  | none ↦ c
  | some colon ↦ record c { host = take colon m.host; port = drop (colon + 1) m.host }
]

module _ (desk : Desk) (outside : Outside desk) where
  open outside use {switch_to}

  unfoldable pub call_switch : Text → Config → Config
  call_switch provider c = elim switch_to [ none ↦ c | some switch ↦ switch c provider ]

  -- host, provider and model of an entry become the current ones
  unfoldable pub take_model : ModelEntry → Config → Config
  take_model m c =
      call_switch m.provider (record (on_host m c) { provider = m.provider; model = m.name })

  unfoldable pub use_usage : Text
  use_usage =
      codes "Usage: /use <model>                    "
      ++ (226 ∷ 128 ∷ 148 ∷ codes " switch model\n"
          ++ (codes "       /use <provider>:<model>         "
              ++ (226 ∷ 128 ∷ 148 ∷ codes " switch provider + model\n"
                  ++ (codes "       /use @<host>                    "
                      ++ (226 ∷ 128 ∷ 148 ∷ codes " switch host\n"
                          ++ (codes "       /use @<host>:<provider>:<model> "
                              ++ (226 ∷ 128 ∷ 148 ∷ codes " switch everything\n")))))))

  unfoldable pub handle_use : Text → Panel desk → Panel desk
  handle_use arg p =
      if is_empty arg
      then say desk p use_usage
      else if is_empty p.extras.registry
      then say desk p (codes "[no registry available]\n")
      else elim (first_model (fits (parse_wanted arg)) p.extras.registry) [
        | none ↦ say desk p (
            codes "No matching model found for: "
            ++ (arg ++ codes "\nTry /model to see available options.\n"))
        | some m ↦ say desk (with_config desk p (take_model m p.extras.config)) (
            codes "[switched: "
            ++ (m.name ++ (codes " on " ++ (m.provider ++ (codes "@" ++ (m.host ++ codes "]\n"))))))
      ]
