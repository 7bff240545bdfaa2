-- ===== src/Repl/Options.antt =====
-- src/repl/repl_commands.cpp: the options, `/set`, `/private`, `/tips`, `/nick` and `/spinner`.
use llama_cli.Util.Colors.{ansi_to_name}
use llama_cli.Repl.Console.{Desk, reset}
use llama_cli.Repl.Panel.{Outside, Panel, say, with_extras, with_config, first_word, on_off, dash}
use llama_cli.Base.{
  ℕ, ◌-◌, Bool, false, not, ◌||◌, Option, none, some, [], ◌++◌, if◌then◌else◌, length, replicate,
  Text, codes, is_empty, text_eq,
}

-- `std::left << std::setw(width)`
unfoldable pub left_padded : ℕ → Text → Text
left_padded width text = text ++ replicate (width - length text) b' '

module _ (desk : Desk) (outside : Outside desk) where
  open desk use {theme}

  unfoldable pub status_text : Panel desk → Bool → Text
  status_text p val =
      if not p.color
      then on_off val
      else (if val then theme.info else theme.error) ++ (on_off val ++ reset)

  unfoldable pub option_line : Panel desk → Text → Bool → Text → Text
  option_line p label val what =
      codes "  "
      ++ (left_padded 10 label ++ (left_padded 15 (status_text p val) ++ (what ++ codes "\n")))

  unfoldable pub setting : Text → Text → Text
  setting label val = codes "  " ++ (left_padded 10 label ++ (val ++ codes "\n"))

  unfoldable pub show_options : Panel desk → Panel desk
  show_options p =
      let c = p.extras.config in
      say desk p (
        codes "Options (toggle with /set <option>):\n"
        ++ (option_line p (codes "markdown") p.markdown
              (codes "Render AI responses with formatting and lists")
            ++ (option_line p (codes "color") p.color
                  (codes "Enable ANSI colors in terminal output")
                ++ (option_line p (codes "warmup") p.extras.warmup
                      (codes "Pre-load model on startup/switch to avoid first-prompt delay")
                    ++ (option_line p (codes "bofh") p.extras.bofh
                          (codes "Enable 'Bastard Operator From Hell' sarcastic spinner")
                        ++ (option_line p (codes "mask") p.extras.mask_pii
                              (codes "Mask PII in output (IPs, hostnames, emails, keys)")
                            ++ (option_line p (codes "trace") c.trace
                                  (codes "Show detailed HTTP traffic and timing logs")
                                ++ (codes "\nColors (/color prompt|ai <name>):\n"
                                    ++ (setting (codes "prompt")
                                          (ansi_to_name p.extras.prompt_color)
                                        ++ (setting (codes "ai") (ansi_to_name p.ai_color)
                                            ++ (codes "\nConnection (persisted in .env):\n"
                                                ++ (setting (codes "model") c.model
                                                    ++ (setting (codes "host") c.host
                                                        ++ (setting (codes "port") c.port
                                                            ++ setting (codes "provider")
                                                            c.provider))))))))))))))

  unfoldable pub toggled_line : Text → Bool → Text
  toggled_line name val = codes "[" ++ (name ++ (codes " " ++ (on_off val ++ codes "]\n")))

  -- `none` if there is no such option
  unfoldable pub toggle_option : Text → Panel desk → Option (Panel desk)
  toggle_option name p =
      let x = p.extras in
      let told : Panel desk → Bool → Option (Panel desk) =
        λ q val. some (say desk q (toggled_line name val)) in
      if text_eq name (codes "trace")
      then told (with_config desk p (record x.config { trace = not x.config.trace }))
          (not x.config.trace)
      else if text_eq name (codes "markdown")
      then told (record p { markdown = not p.markdown }) (not p.markdown)
      else if text_eq name (codes "color")
      then told (record p { color = not p.color }) (not p.color)
      else if text_eq name (codes "bofh")
      then told (with_extras desk p (record x { bofh = not x.bofh })) (not x.bofh)
      else if text_eq name (codes "warmup")
      then told (with_extras desk p (record x { warmup = not x.warmup })) (not x.warmup)
      else if text_eq name (codes "mask")
      then told (with_extras desk p (record x { mask_pii = not x.mask_pii })) (not x.mask_pii)
      else if text_eq name (codes "tips")
      then told (record p { tips_enabled = not p.tips_enabled }) (not p.tips_enabled)
      else none

  unfoldable pub handle_set : Text → Panel desk → Panel desk
  handle_set arg p =
      if is_empty arg then show_options p else elim (toggle_option (first_word arg) p) [
        | some q ↦ q
        | none ↦
            say desk p
              (codes "Unknown option: " ++ (arg ++ codes ". Type /set to see available options.\n"))
      ]

  -- the switch of the logger is left out
  unfoldable pub toggle_private : Panel desk → Panel desk
  toggle_private p =
      let now = not p.extras.private_mode in
      say desk (with_extras desk p (record p.extras { private_mode = now })) (
        codes "[private mode "
        ++ ((if now
              then codes "ON" ++ (dash ++ codes "logging disabled")
              else codes "OFF" ++ (dash ++ codes "logging resumed"))
            ++ codes "]\n"))

  unfoldable pub toggle_tips : Panel desk → Panel desk
  toggle_tips p =
      say desk (record p { tips_enabled = not p.tips_enabled })
        (codes "[tips "
          ++ ((if p.tips_enabled then codes "disabled" else codes "enabled") ++ codes "]\n"))

  unfoldable pub set_nick : Text → Panel desk → Panel desk
  set_nick arg p =
      if is_empty arg
      then say desk p (
          codes "Usage: /nick <name>"
          ++ (dash
              ++ (codes "set your display name\nCurrent: "
                  ++ (p.extras.config.nick ++ codes "\n"))))
      else say desk (with_config desk p (record p.extras.config { nick = arg }))
          (codes "[nick set to: " ++ (arg ++ codes "]\n"))

  unfoldable pub set_spinner : Text → Panel desk → Panel desk
  set_spinner arg p =
      let x = p.extras in
      let current =
        if is_empty x.spinner_name
        then (if x.bofh then codes "bofh" else codes "default")
        else x.spinner_name in
      if is_empty arg
      then say desk p (
          codes "[spinner: "
          ++ (current
              ++ (codes "]\nUsage: /spinner <name>"
                  ++ (dash
                      ++ codes
                          "loads .config/spinners/<name>.txt\nBuilt-in: default, bofh. Drop .txt files for custom personalities.\n"))))
      else if text_eq arg (codes "default") || text_eq arg (codes "off")
      then say desk (with_extras desk p (record x { spinner_name = []; bofh = false }))
          (codes "[spinner: default]\n")
      else say desk (with_extras desk p (record x { spinner_name = arg })) (
          codes "[spinner: "
          ++ (arg
              ++ (codes " ("
                  ++ (desk.to_string (outside.messages_of arg) ++ codes " messages)]\n"))))
