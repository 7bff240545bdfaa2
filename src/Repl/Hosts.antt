-- ===== src/Repl/Hosts.antt =====
-- src/repl/repl_commands.cpp: `/host`. What is asked for is read from the input lines.
use llama_cli.Base.Int.{ℤ, pos, negsuc}
use llama_cli.Annotation.Numbers.{stoi}
use llama_cli.Provider.Registry.{ModelEntry, new_in}
use llama_cli.Config.Settings.{Config}
use llama_cli.Config.Store.{save_to_dotenv}
use llama_cli.Planner.Route.{arrow}
use llama_cli.Repl.Console.{Desk}
use llama_cli.Repl.Panel.{Outside, Panel, say, with_config}
use llama_cli.Base.{
  ℕ, zero, suc, ◌+◌, not, ◌||◌, Option, none, some, List, [], ◌∷◌, ◌++◌, map, ltb, if◌then◌else◌,
  length, get_elem?, Text, codes, is_empty, text_eq, starts_with,
}
use llama_cli.Repl.Switch.{is_part_of, first_model, take_model}

-- a number that is chosen from a list, from 1
unfoldable pub chosen : ℤ → List Text → Option Text
chosen (pos zero) options = none
chosen (pos (suc i)) options = get_elem? options i
chosen (negsuc n) options = none

module _ (desk : Desk) (outside : Outside desk) where
  open desk use {State, read, write, to_string}
  open outside use {display_name}

  -- `save_to_dotenv` on the file
  unfoldable pub save_setting : Text → Text → State → State
  save_setting key value state =
      elim (write state (codes ".env") (save_to_dotenv key value (read state (codes ".env")))) [
        | none ↦ state
        | some state₁ ↦ state₁
      ]

  abbrev pub switched_line : ModelEntry → Text → Text
  switched_line m behind =
      codes "[host: "
      ++ (display_name m.host ++ (arrow ++ (m.provider ++ (codes ":" ++ (m.name ++ behind)))))

  unfoldable pub save_choice : ModelEntry → Panel desk → Panel desk
  save_choice m p =
      let c = p.extras.config in
      record p {
        state = save_setting (codes "OLLAMA_PORT") c.port (
            save_setting (codes "OLLAMA_HOST") c.host (
              save_setting (codes "OLLAMA_MODEL") m.name
                (save_setting (codes "LLAMA_PROVIDER") m.provider p.state)));
      }

  unfoldable pub count_of : (ModelEntry → Text) → Text → List ModelEntry → ℕ
  count_of field value [] = 0
  count_of field value (m ∷ models) =
      let rest = count_of field value models in if text_eq (field m) value then suc rest else rest

  abbrev pub models_text : ℕ → Text
  models_text count =
      to_string count
      ++ (codes " model" ++ ((if ltb 1 count then codes "s" else []) ++ codes ")\n"))

  -- the providers of a host, each that is not yet part of the text
  unfoldable pub host_providers : Text → Text → List ModelEntry → Text
  host_providers host sofar [] = sofar
  host_providers host sofar (m ∷ models) =
      host_providers host
        (if not (text_eq m.host host)
          then sofar
          else if is_empty sofar
          then m.provider
          else if is_part_of m.provider sofar
          then sofar
          else sofar ++ (codes ", " ++ m.provider))
        models

  unfoldable pub numbered_hosts : Config → List ModelEntry → ℕ → List Text → Text
  numbered_hosts c registry i [] = []
  numbered_hosts c registry i (h ∷ hosts) =
      (if text_eq h (c.host ++ (codes ":" ++ c.port)) || starts_with c.host h
        then codes "*"
        else codes " ")
      ++ (codes " "
          ++ (to_string (i + 1)
              ++ (codes ". "
                  ++ (display_name h
                      ++ (codes "  ("
                          ++ (host_providers h [] registry
                              ++ (codes ", "
                                  ++ (models_text (count_of (λ m. m.host) h registry)
                                      ++ numbered_hosts c registry (i + 1) hosts))))))))

  abbrev pub hosts_of : List ModelEntry → List Text
  hosts_of registry = new_in [] (map (λ m. m.host) registry)

  -- the host that a line of the input chooses, none for a number out of range
  unfoldable pub host_chosen : Text → List Text → Option Text
  host_chosen input hosts = elim (stoi input) [ none ↦ some input | some n ↦ chosen n hosts ]

  unfoldable pub choose_host : Text → Panel desk → Panel desk
  choose_host input p = elim (host_chosen input (hosts_of p.extras.registry)) [
    | none ↦ p
    | some host ↦
        if is_empty host
        then p
        else elim (first_model (λ m. text_eq m.host host) p.extras.registry) [
          | none ↦ p
          | some m ↦
              let q =
                save_choice m (with_config desk p (take_model desk outside m p.extras.config)) in
              say desk q (switched_line m (codes " (saved)]\n"))
        ]
  ]

  -- a line of the input, and what is left
  unfoldable pub on_line : (Text → Panel desk → Panel desk) → Panel desk → List Text → Panel desk
  on_line act p [] = p
  on_line act p (line ∷ lines) =
      let q = record p { input = lines } in if is_empty line then q else act line q

  unfoldable pub list_hosts : Panel desk → Panel desk
  list_hosts p =
      let c = p.extras.config in
      let hosts = hosts_of p.extras.registry in
      say desk p (
        codes "[current: "
        ++ (display_name (c.host ++ (codes ":" ++ c.port))
            ++ (codes "]\n"
                ++ (numbered_hosts c p.extras.registry 0 hosts
                    ++ (codes "Select [1-"
                        ++ (to_string (length hosts) ++ codes "] or /host <name>: "))))))

  unfoldable pub handle_host : Text → Panel desk → Panel desk
  handle_host arg p =
      if is_empty p.extras.registry
      then say desk p
          (codes "[no registry available " ++ (226 ∷ 128 ∷ 148 ∷ codes " run /scan first]\n"))
      else if is_empty arg
      then on_line choose_host (list_hosts p) p.input
      else elim (first_model (λ m. text_eq m.host arg || starts_with arg m.host)
          p.extras.registry) [
            | none ↦ say desk p (codes "Unknown host: " ++ (arg ++ codes "\n"))
            | some m ↦
                say desk (with_config desk p (take_model desk outside m p.extras.config))
                  (switched_line m (codes "]\n"))
          ]
