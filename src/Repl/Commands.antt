-- ===== src/Repl/Commands.antt =====
-- src/repl/repl_commands.cpp: `dispatch_command`, with `/help`, `/version`, `/update` and `/auto`. `styled` stands
-- for the handlers of `/color`, `/theme`, `/browse` and `/model`, which are not modelled; the log is left out.
use llama_cli.Command.Exec.{cmd_exec}
use llama_cli.Base.Words.{getlines}
use llama_cli.Planner.Route.{arrow}
use llama_cli.Repl.Console.{Desk}
use llama_cli.Repl.Panel.{Outside, Panel, say, dash}
use llama_cli.Repl.Options.{handle_set, toggle_private, toggle_tips, set_nick, set_spinner}
use llama_cli.Repl.Notes.{handle_mem, handle_pref, handle_rate}
use llama_cli.Repl.Switch.{handle_use}
use llama_cli.Repl.Hosts.{handle_host}
use llama_cli.Repl.Providers.{handle_provider, handle_scan}
use llama_cli.Repl.Context.{
  is_ok, clear_history, handle_copy, handle_paste, handle_image, handle_compress, handle_usage,
}
use llama_cli.Repl.ChatFiles.{handle_chat}
use llama_cli.Repl.Agents.{handle_agent}
use llama_cli.Repl.Review.{handle_review, handle_tasks}
use llama_cli.Base.{
  ℕ, suc, ◌%◌, Bool, not, ◌&&◌, ◌||◌, Option, some, List, [], ◌∷◌, ◌++◌, ltb, ◌==◌, if◌then◌else◌,
  length, drop, Text, codes, is_empty, text_eq, char_at,
}

-- `while (back is a newline or a blank) pop_back`
unfoldable pub drop_blank_end : Text → Text
drop_blank_end [] = []
drop_blank_end (c ∷ s) =
    let rest = drop_blank_end s in
    if is_empty rest && (c == b'\n' || c == b' ') then [] else c ∷ rest

unfoldable pub release_of : Text → Text
release_of output =
    let latest = drop_blank_end output in if char_at latest 0 == b'v' then drop 1 latest else latest

unfoldable pub update_cmd : Text
update_cmd =
    codes "curl -fsSL -H 'Accept: application/vnd.github.v3+json' "
    ++ (codes "https://api.github.com/repos/rkristelijn/llama-cli/releases/latest "
        ++ codes
            "2>/dev/null | grep '\"tag_name\"' | head -1 | sed 's/.*\"tag_name\"[^\"]*\"\\([^\"]*\\)\".*/\\1/'")

module _ (desk : Desk) (outside : Outside desk)
    (styled : Text → Text → Panel desk → Panel desk) where
  open desk use {to_string}

  -- A page is full: the prompt for more, and a line of the input.
  unfoldable pub turn_page : ℕ → ℕ → Panel desk → Panel desk
  turn_page i total p =
      record (say desk p (
        codes "  -- more ("
        ++ (to_string i ++ (codes "/" ++ (to_string total ++ codes ") press Enter --"))))) {
          input = drop 1 p.input;
        }

  unfoldable pub show_lines : ℕ → ℕ → ℕ → List Text → Panel desk → Panel desk
  show_lines page total i [] p = p
  show_lines page total i (line ∷ lines) p =
      let q = say desk p (line ++ codes "\n") in
      show_lines page total (suc i) lines (
        if ltb page total && (suc i % page == 0 && ltb (suc i) total)
        then turn_page (suc i) total q
        else q)

  unfoldable pub handle_help : Text → Panel desk → Panel desk
  handle_help arg p =
      let lines = getlines b'\n' (outside.help_text (text_eq arg (codes "all"))) in
      show_lines outside.page_size (length lines) 0 lines p

  -- `current` is the version without the commit
  unfoldable pub handle_update : Text → Panel desk → Panel desk
  handle_update current p =
      let (state, process) = desk.launch p.state update_cmd in
      let result = cmd_exec to_string process 10 200 in
      let latest = release_of result.output in
      let q = record (say desk p (codes "[checking for updates...]\n")) { state = state } in
      if not (is_ok result.exit_code) || is_empty result.output
      then say desk q (codes "[error: could not reach GitHub releases]\n")
      else if text_eq latest current
      then say desk q (codes "[up to date: v" ++ (current ++ codes "]\n"))
      else say desk q (
          codes "[update available: v"
          ++ (current
              ++ (arrow
                  ++ (codes "v"
                      ++ (latest
                          ++ codes
                              "]\nRun: curl -fsSL https://raw.githubusercontent.com/rkristelijn/llama-cli/main/install.sh | bash\n")))))

  -- the branch of each command behind `/chat`
  unfoldable pub dispatch_rest : Text → Text → Text → Panel desk → Panel desk
  dispatch_rest current command arg p =
      let is : Text → Bool = λ name. text_eq command name in
      if is (codes "set") || is (codes "options")
      then handle_set desk outside arg p
      else if is (codes "color")
          || (is (codes "model") || (is (codes "browse") || is (codes "theme")))
      then styled command arg p
      else if is (codes "version")
      then (say desk p (codes "llama-cli " ++ (outside.version ++ codes "\n")))
      else if is (codes "mem")
      then handle_mem desk outside arg p
      else if is (codes "pref")
      then handle_pref desk outside arg p
      else if is (codes "rate")
      then handle_rate desk outside arg p
      else if is (codes "copy") || is (codes "c")
      then handle_copy desk outside p
      else if is (codes "paste") || is (codes "p")
      then handle_paste desk outside p
      else if is (codes "help") || is_empty command
      then handle_help arg p
      else if is (codes "scan")
      then handle_scan desk outside p
      else if is (codes "provider")
      then handle_provider desk outside arg p
      else if is (codes "host")
      then handle_host desk outside arg p
      else if is (codes "use")
      then handle_use desk outside arg p
      else if is (codes "auto")
      then (say desk p (
          codes "[auto routing removed"
          ++ (dash ++ codes "LLM can delegate via <delegate> tags, check /tasks]\n")))
      else if is (codes "image")
      then handle_image desk outside arg p
      else if is (codes "agent")
      then handle_agent desk outside arg p
      else if is (codes "nick")
      then set_nick desk outside arg p
      else if is (codes "usage")
      then handle_usage desk outside p
      else if is (codes "tasks")
      then handle_tasks desk outside p
      else if is (codes "spinner")
      then set_spinner desk outside arg p
      else if is (codes "compress")
      then handle_compress desk outside p
      else if is (codes "review")
      then handle_review desk outside arg p
      else if is (codes "private")
      then toggle_private desk outside p
      else if is (codes "update")
      then handle_update current p
      else if is (codes "tips")
      then toggle_tips desk outside p
      else (say desk p
          (codes "Unknown command: /" ++ (command ++ codes ". Type /help for options.\n")))

  unfoldable pub dispatch_command : Text → Text → Text → Panel desk → Option (Panel desk)
  dispatch_command current command arg p =
      if text_eq command (codes "clear")
      then some (clear_history desk outside p)
      else if text_eq command (codes "chat")
      then handle_chat desk outside arg p
      else some (dispatch_rest current command arg p)
