-- ===== src/Repl/Providers.antt =====
-- src/repl/repl_commands.cpp: `/provider` and `/scan`.
use llama_cli.Annotation.Numbers.{stoi}
use llama_cli.Provider.Registry.{ModelEntry, providers}
use llama_cli.Config.Settings.{Config}
use llama_cli.Config.Store.{host_display_name, saved_lines, lines_of, with_newlines}
use llama_cli.Repl.Console.{Desk}
use llama_cli.Repl.Panel.{Outside, Panel, say, with_config}
use llama_cli.Base.{
  ℕ, ◌+◌, none, some, List, [], ◌∷◌, ◌++◌, if◌then◌else◌, ◌>>=◌, length, take, Text, codes,
  is_empty, text_eq, find,
}
use llama_cli.Repl.Switch.{call_switch}
use llama_cli.Repl.Hosts.{chosen, save_setting, count_of, models_text, on_line}

module _ (desk : Desk) (outside : Outside desk) where
  open desk use {read, write, to_string}
  open outside use {switch_to, display_name}

  unfoldable pub switch_provider : Text → Panel desk → Panel desk
  switch_provider name p =
      let c = call_switch desk outside name p.extras.config in
      say desk
        (record (with_config desk p c) {
          state = save_setting desk outside (codes "LLAMA_PROVIDER") name p.state;
        })
        (codes "[switched to "
          ++ (name ++ (codes ": " ++ (c.model ++ (codes "@" ++ (c.host ++ codes " (saved)]\n"))))))

  unfoldable pub provider_lines : Text → List ModelEntry → ℕ → List Text → Text
  provider_lines current registry i [] = []
  provider_lines current registry i (name ∷ names) =
      (if text_eq name current then codes "*" else codes " ")
      ++ (codes " "
          ++ (to_string (i + 1)
              ++ (codes ". "
                  ++ (name
                      ++ (codes " ("
                          ++ (models_text desk outside
                                (count_of desk outside (λ m. m.provider) name registry)
                              ++ provider_lines current registry (i + 1) names))))))

  -- a number in range stands for its provider, any other text for itself
  unfoldable pub choose_provider : Text → Panel desk → Panel desk
  choose_provider input p =
      let name : Text = elim (stoi input >>= λ n. chosen n (providers p.extras.registry)) [
        | none ↦ input
        | some name ↦ name
      ] in
      elim switch_to [ none ↦ p | some switch ↦ switch_provider name p ]

  unfoldable pub list_providers : Panel desk → Panel desk
  list_providers p =
      let names = providers p.extras.registry in
      say desk p (
        provider_lines p.extras.config.provider p.extras.registry 0 names
        ++ (codes "Select [1-" ++ (to_string (length names) ++ codes "] or /provider <name>: ")))

  unfoldable pub handle_provider : Text → Panel desk → Panel desk
  handle_provider arg p =
      let told = say desk p (codes "[current: " ++ (p.extras.config.provider ++ codes "]\n")) in
      if is_empty arg
      then (if is_empty p.extras.registry
          then say desk told
              (codes "Available: ollama, tgpt, gemini, kiro-cli\nUsage: /provider <name>\n")
          else on_line desk outside choose_provider (list_providers told) p.input)
      else elim switch_to [
        | none ↦ say desk p (codes "[provider switching not available]\n")
        | some switch ↦ switch_provider arg p
      ]

  abbrev pub joined_hosts : List Text → Text
  joined_hosts [] = []
  joined_hosts (h ∷ []) = h
  joined_hosts (h ∷ next ∷ hosts) = h ++ (codes "," ++ joined_hosts (next ∷ hosts))

  unfoldable pub found_lines : Config → List Text → Text
  found_lines c [] = []
  found_lines c (h ∷ hosts) =
      let known = host_display_name c.named_hosts h in
      let display = if text_eq known h then display_name h else known in
      let ip : Text = elim (find (codes ":") h) [ none ↦ h | some colon ↦ take colon h ] in
      codes "  "
      ++ (display
          ++ ((if text_eq display h then [] else codes " (" ++ (ip ++ codes ")"))
              ++ (codes "\n" ++ found_lines c hosts)))

  -- the servers that are found become the hosts, in `.env` too if it can be written
  unfoldable pub handle_scan : Panel desk → Panel desk
  handle_scan p =
      let hosts = outside.scan p.state in
      let told =
        say desk p
          (codes "Scanning " ++ (outside.subnet ++ codes "0/24 for Ollama servers...\n")) in
      let text =
        saved_lines (codes "OLLAMA_HOSTS") (joined_hosts hosts)
          (lines_of (read p.state (codes ".env"))) in
      let found = say desk told (
        codes "Found "
        ++ (to_string (length hosts)
            ++ (codes " Ollama server(s):\n" ++ found_lines p.extras.config hosts))) in
      let q : Panel desk = elim (write p.state (codes ".env") (with_newlines text)) [
        | none ↦ found
        | some state₁ ↦
            say desk (record found { state = state₁ })
              (codes "Saved to .env (OLLAMA_HOSTS=" ++ (joined_hosts hosts ++ codes ")\n"))
      ] in
      if is_empty hosts
      then say desk told (codes "No Ollama servers found on the local network.\n")
      else with_config desk q (record q.extras.config { hosts = hosts })
