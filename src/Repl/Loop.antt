-- ===== src/Repl/Loop.antt =====
-- src/repl/repl.cpp: the label of the prompt, the first prompt of the system, completion, `run_exec`, `dispatch`
-- and the loop of `run_repl`. A round takes a line of the input, so the rounds count lines; linenoise, which
-- shows the prompt itself, the log and the trace output are left out. `invoke` calls another agent.
use llama_cli.Base.Words.{rfind}
use llama_cli.Provider.Message.{Message}
use llama_cli.Provider.MultiHost.{is_small_model}
use llama_cli.Command.Exec.{ExecResult, cmd_exec}
use llama_cli.Command.Input.{
  InputType, prompt, slash_command, exit_input, exec, exec_context, ParsedInput, parse_input,
}
use llama_cli.Orchestrator.Subagent.{MentionResult, parse_mention}
use llama_cli.Config.Settings.{Config}
use llama_cli.Repl.Console.{Desk, ReplState, print, show_error, reset}
use llama_cli.Repl.Chat.{Exchange, message, send_prompt}
use llama_cli.Repl.Response.{int_text}
use llama_cli.Repl.Context.{is_ok}
use llama_cli.Repl.Panel.{Outside, Panel, Shell, panel_of, put_back}
use llama_cli.Repl.Commands.{dispatch_command}
use llama_cli.Base.{
  ℕ, zero, suc, ◌+◌, Bool, true, false, not, ◌&&◌, ◌||◌, Option, none, some, List, [], ◌∷◌, ◌++◌,
  ◌==◌, if◌then◌else◌, ◌>>=◌, take, drop, Text, codes, is_empty, text_eq, char_at, starts_with,
}

unfoldable pub build_prompt_label : Text → Text → Text → Text
build_prompt_label nick provider model =
    let show_model = not (text_eq provider (codes "tgpt")) && not (is_empty model) in
    if not (is_empty nick) && (not (is_empty provider) && show_model)
    then nick ++ (codes "@" ++ (provider ++ (codes ":" ++ (model ++ codes "> "))))
    else if not (is_empty nick) && not (is_empty provider)
    then nick ++ (codes "@" ++ (provider ++ codes "> "))
    else if not (is_empty nick)
    then nick ++ codes "> "
    else codes "> "

-- the first message; `prefs` and `mem` are the files, empty if they are not there
unfoldable pub first_history : Config → Text → Text → Text → Text → List Message
first_history cfg small web_search prefs mem =
    let sys =
      if not cfg.system_prompt_override && is_small_model cfg.model
      then small
      else cfg.system_prompt in
    if is_empty cfg.system_prompt
    then []
    else message (codes "system") (
        sys
        ++ ((if cfg.allow_web_search then web_search else [])
            ++ ((if is_empty prefs then [] else codes "\n\nUser preferences:\n" ++ prefs)
                ++ (if is_empty mem
                    then []
                    else codes "\n\nUser context (remembered facts):\n" ++ mem))))
      ∷ []

-- Completion. `home` is HOME, `listed` the entries of a directory.
unfoldable pub names_with : Text → Text → List (Text × Bool) → List Text
names_with front file_part [] = []
names_with front file_part ((name, is_dir) ∷ names) =
    let rest = names_with front file_part names in
    if text_eq name (codes ".") || (text_eq name (codes "..") || not (starts_with file_part name))
    then rest
    else (front ++ (name ++ (if is_dir then codes "/" else []))) ∷ rest

unfoldable pub resolved_dir : Option Text → Text → Text
resolved_dir home dir_part =
    if char_at dir_part 0 == b'~'
    then elim home [ none ↦ dir_part | some path ↦ path ++ drop 1 dir_part ]
    else dir_part

unfoldable pub path_completions :
    (Text → Option (List (Text × Bool))) → Option Text → Text → Text → List Text
path_completions listed home path before =
    let (dir_part, file_part) : Text × Text = elim (rfind b'/' path) [
      | some slash ↦ (take (slash + 1) path, drop (slash + 1) path)
      | none ↦ (codes ".", path)
    ] in
    elim (listed (resolved_dir home dir_part)) [
      | none ↦ []
      | some names ↦ names_with (before ++ dir_part) file_part names
    ]

abbrev is_path_byte : ℕ → Bool
is_path_byte c = c == b'.' || (c == b'~' || c == b'/')

-- what stands before the path that is completed, and the path, empty for none
unfoldable pub path_part : Text → Text × Text
path_part input =
    if starts_with (codes "!!") input
    then (codes "!!", drop 2 input)
    else if char_at input 0 == b'!'
    then (codes "!", drop 1 input)
    else elim (rfind b' ' input) [
      | some space ↦
          if is_path_byte (char_at (drop (space + 1) input) 0)
          then (take (space + 1) input, drop (space + 1) input)
          else ([], [])
      | none ↦ if is_path_byte (char_at input 0) then ([], input) else ([], [])
    ]

unfoldable pub completed_commands : List Text
completed_commands =
    codes "/c"
    ∷ codes "/clear"
    ∷ codes "/color"
    ∷ codes "/copy"
    ∷ codes "/mem"
    ∷ codes "/model"
    ∷ codes "/p"
    ∷ codes "/paste"
    ∷ codes "/pref"
    ∷ codes "/rate"
    ∷ codes "/review"
    ∷ codes "/scan"
    ∷ codes "/set"
    ∷ codes "/version"
    ∷ codes "/help"
    ∷ []

unfoldable pub commands_with : Text → List Text → List Text
commands_with input [] = []
commands_with input (cmd ∷ cmds) =
    let rest = commands_with input cmds in if starts_with input cmd then cmd ∷ rest else rest

unfoldable pub slash_completion :
    (Text → Option (List (Text × Bool))) → Option Text → Text → List Text
slash_completion listed home input =
    let (before, path) = path_part input in
    if is_empty input
    then []
    else if char_at input 0 == b'/'
    then commands_with input completed_commands
    else if is_empty path
    then []
    else path_completions listed home path before

module _ (desk : Desk) (outside : Outside desk) (styled : Text → Text → Panel desk → Panel desk)
    (chat : desk.State → Bool → List Message → Exchange desk.State)
    (invoke : desk.State → Text → Text → List Message → desk.State × Text) (current : Text) where
  open desk use {theme, to_string}

  -- a line in the colour of a style
  abbrev pub styled_line : Bool → Text → Text → Text
  styled_line color style msg =
      (if color then style else []) ++ (msg ++ ((if color then reset else []) ++ codes "\n"))

  -- the run of a command, and what is shown of it
  unfoldable pub launched : Text → ReplState desk → desk.State × ExecResult
  launched cmd s =
      let (state, process) = desk.launch s.state cmd in
      (state, cmd_exec to_string process s.cfg.exec_timeout s.cfg.max_output)

  unfoldable pub shown_result : Text → ReplState desk → ReplState desk
  shown_result cmd s =
      let (state, r) = launched cmd s in
      let s₁ = print desk (record s { state = state }) (styled_line s.color theme.info r.output) in
      if not (is_ok r.exit_code) && not r.timed_out
      then show_error desk s₁
          (codes "[exit code: " ++ (int_text to_string r.exit_code ++ codes "]"))
      else s₁

  unfoldable pub run_exec : Text → Bool → ReplState desk → ReplState desk
  run_exec cmd add_to_history s =
      let s₁ = shown_result cmd s in
      let note = codes "[command: " ++ (cmd ++ (codes "]\n" ++ (launched cmd s).1.output)) in
      if add_to_history
      then record s₁ { history = s₁.history ++ message (codes "user") note ∷ [] }
      else s₁

  -- a line that names another agent
  unfoldable pub route_mention : MentionResult → ReplState desk → ReplState desk
  route_mention mention s =
      let s₁ = print desk s (
        styled_line s.color theme.system (codes "[routing to @" ++ (mention.agent ++ codes "]"))) in
      let (state, response) = invoke s.state mention.agent mention.prompt s.history in
      let s₂ = print desk (record s₁ { state = state }) (codes "\n" ++ (response ++ codes "\n")) in
      record s₂ {
        history =
            s₂.history
            ++ message (codes "user") mention.prompt ∷ message (codes "assistant") response ∷ [];
      }

  unfoldable pub dispatch_prompt : ℕ → Text → Shell desk → Option (Shell desk)
  dispatch_prompt fuel line shell =
      let mention = parse_mention line in
      if mention.has_mention
      then some (record shell { repl = route_mention mention shell.repl })
      else send_prompt desk chat fuel line shell.repl >>= λ s. some (record shell { repl = s })

  unfoldable pub run_slash : Text → Text → Shell desk → Option (Shell desk)
  run_slash command arg shell =
      dispatch_command desk outside styled current command arg (panel_of desk shell) >>= λ p.
      some (put_back desk p shell)

  -- one line, by its type; false ends the loop
  unfoldable pub dispatch_type :
      InputType → ℕ → Text → ParsedInput → Shell desk → Option (Shell desk × Bool)
  dispatch_type exit_input fuel line input shell = some (shell, false)
  dispatch_type slash_command fuel line input shell =
      run_slash input.command input.arg shell >>= λ shell₁. some (shell₁, true)
  dispatch_type exec fuel line input shell =
      some (record shell { repl = run_exec input.arg false shell.repl }, true)
  dispatch_type exec_context fuel line input shell =
      some (record shell { repl = run_exec input.arg true shell.repl }, true)
  dispatch_type prompt fuel line input shell =
      dispatch_prompt fuel line shell >>= λ shell₁. some (shell₁, true)

  unfoldable pub dispatch : ℕ → Text → Shell desk → Option (Shell desk × Bool)
  dispatch fuel line shell =
      dispatch_type (parse_input line).type fuel line (parse_input line) shell

  -- one round of the loop: a line of the input, false at its end
  unfoldable pub run_line : ℕ → List Text → Shell desk → Option (Shell desk × Bool)
  run_line fuel [] shell = some (shell, false)
  run_line fuel (line ∷ lines) shell =
      let shell₁ = record shell { repl = record shell.repl { input = lines } } in
      if is_empty line then some (shell₁, true) else dispatch fuel line shell₁

  -- so many rounds, fewer if the loop ends
  unfoldable pub run_repl : ℕ → ℕ → Shell desk → Option (Shell desk × Bool)
  run_repl zero fuel shell = some (shell, true)
  run_repl (suc rounds) fuel shell = do
    (shell₁, more) ← run_line fuel shell.repl.input shell
    let later = run_repl rounds fuel shell₁
    if more then later else some (shell₁, false)
