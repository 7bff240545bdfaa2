-- ===== src/Tests/Repl.antt =====
-- src/repl on concrete answers, with a file system that is a list of files.
use llama_cli.Base.Int.{pos}
use llama_cli.Provider.Message.{Message}
use llama_cli.Annotation.Actions.{WriteAction}
use llama_cli.Annotation.Repair.{
  fix_malformed_tags, repaired_tags, inner_name, is_inner, next_closer, bad_closer, closed_at,
  repair_step, repair_tag, repair_tags,
}
use llama_cli.Command.Exec.{Process, exited}
use llama_cli.Agent.Config.{builtin_agents, find_agent_config, check_permission, permission_of}
use llama_cli.Repl.Console.{
  Desk, Theme, ReplState, ReplConfig, denied, report_denied, drop_return, answer_of, prompted,
}
use llama_cli.Repl.Confirm.{is_either, write_reply, on_write_reply, ask_write}
use llama_cli.Repl.Diff.{show_diff}
use llama_cli.Repl.Apply.{
  process_write, confirm_write, preview_write, apply_write, save_backup, save_file, write_file,
  backup_path,
}
use llama_cli.Repl.History.{trim_history, system_count, trim_history_lem}
use llama_cli.Repl.Prompt.{quoted_command, trim_breaks, drop_back, fenced, inline}
use llama_cli.Repl.Response.{Actions, handle_actions}
use llama_cli.Repl.Chat.{Exchange, message, send_prompt}
use llama_cli.Repl.Interrupt.{send_prompt_interrupted}
use llama_cli.Repl.ReadOnly.{handle_actions-ReadOnly}
use llama_cli.Base.Words.{drop_while, rfind}
use llama_cli.Base.{
  ◌+◌, ◌≡◌, refl, Bool, true, false, Option, none, some, List, [], ◌∷◌, if◌then◌else◌, Text, codes,
  text_eq, starts_with, find, find_from,
}

abbrev pub Files : Type 0
Files = List (Text × Text)

unfoldable pub read_file : Files → Text → Option Text
unfolding text_eq
read_file [] path = none
read_file ((name, content) ∷ files) path =
    if text_eq name path then some content else read_file files path

abbrev pub plain_theme : Theme
plain_theme = record { error = []; info = []; warning = []; system = []; ai = [] }

abbrev pub one_line : Process
one_line = record { lines = (codes "ok\n", 0) ∷ []; status = exited 0 }

abbrev pub desk : Desk
desk = record {
  State = Files;
  read = read_file;
  write = λ files path content. some ((path, content) ∷ files);
  launch = λ files cmd. (files, some one_line);
  make_backup_dir = λ files. files;
  copy = λ files text. none;
  search = λ files query. (files, codes "found");
  start_task = λ files target prompt. files;
  diff = λ old new. [];
  to_string = λ n. (b'0' + n) ∷ [];
  render = λ text color. text;
  theme = plain_theme;
}

abbrev pub settings : ReplConfig
settings = record {
  exec_timeout = 9;
  max_output = 100;
  max_history = pos 0;
  auto_confirm_write = false;
  allow_web_search = false;
  model = codes "m";
  roles = [];
}

abbrev pub session : List Text → Text → ReplState desk
session lines agent = record {
  state = (codes "a", codes "old") ∷ [];
  input = lines;
  out = [];
  terminal = false;
  color = false;
  markdown = false;
  streaming = true;
  trust = false;
  ai_color = [];
  count = 2;
  tips_enabled = true;
  tips_interval = 5;
  last_assistant_idx = pos 0;
  history = message (codes "assistant") (codes "hi") ∷ [];
  tasks = [];
  agents = builtin_agents;
  active_agent = agent;
  cfg = settings;
  trace = [];
}

abbrev change : WriteAction
change = record { path = codes "a"; content = codes "new" }

-- the user looks again, then agrees
agreed_write :
    (process_write desk (session (codes "?" ∷ codes "y" ∷ []) (codes "build")) change).state
    ≡ (codes "a", codes "new\n")
      ∷ (codes ".tmp/backups/a.bak", codes "old")
      ∷ (codes "a", codes "old")
      ∷ []
unfolding process_write denied find_agent_config check_permission permission_of builtin_agents
    confirm_write preview_write ask_write on_write_reply write_reply is_either answer_of drop_return
    prompted apply_write save_backup save_file write_file backup_path read_file text_eq rfind
    show_diff
agreed_write = refl

-- an agent without the permission
blocked_write : (process_write desk (session (codes "y" ∷ []) (codes "plan")) change).trace ≡ []
unfolding process_write denied find_agent_config check_permission permission_of builtin_agents
    report_denied text_eq
blocked_write = refl

repaired : fix_malformed_tags (codes "<exec>ls</bash>") ≡ some (codes "<exec>ls</exec>")
unfolding fix_malformed_tags repaired_tags inner_name is_inner next_closer bad_closer closed_at
    repair_step repair_tag repair_tags text_eq starts_with find find_from
repaired = refl

-- The text behind a fence of one line is taken for the command.
fenced_command : quoted_command (codes "```ls```\ncat") ≡ some (codes "cat")
unfolding quoted_command trim_breaks drop_back drop_while fenced inline text_eq starts_with find
    find_from
fenced_command = refl

abbrev pub never : Files → Bool → List Message → Exchange Files
never files live history = record { state = files; shown = []; elapsed = 5; answer = none }

abbrev proposing : Files → Bool → List Message → Exchange Files
proposing files live history = record {
  state = files;
  shown = [];
  elapsed = 5;
  answer = some (codes "<write file=\"a\">new</write>");
}

abbrev proposed : Actions
proposed = record {
  writes = change ∷ [];
  replaces = [];
  reads = [];
  execs = codes "rm a" ∷ [];
  searches = [];
  delegates = [];
}

handle_actions-ReadOnly_example :
    (handle_actions desk proposed (session (codes "y" ∷ codes "y" ∷ []) (codes "plan"))).1.state
    ≡ (codes "a", codes "old") ∷ []
unfolding denied find_agent_config check_permission permission_of builtin_agents text_eq
handle_actions-ReadOnly_example =
    handle_actions-ReadOnly desk (λ files. files ≡ (codes "a", codes "old") ∷ []) proposed
      (session (codes "y" ∷ codes "y" ∷ []) (codes "plan")) (λ files query h. h)
      (λ files target prompt h. h) refl refl refl refl

abbrev system_message : Message
system_message = message (codes "system") (codes "be brief")

abbrev from_user : Text → Message
from_user content = message (codes "user") content

trim_history_lem_example :
    trim_history
      (system_message ∷ from_user (codes "1") ∷ from_user (codes "2") ∷ from_user (codes "3") ∷ [])
      (pos 1)
    ≡ system_message ∷ from_user (codes "2") ∷ from_user (codes "3") ∷ []
unfolding text_eq system_count
trim_history_lem_example =
    trim_history_lem (system_message ∷ [])
      (from_user (codes "1") ∷ from_user (codes "2") ∷ from_user (codes "3") ∷ []) 0 (refl, tt) refl

send_prompt_interrupted_example :
    (t : ReplState desk) × (send_prompt desk never 9 (codes "hello") (session [] (codes "build"))
      ≡ some t)
    × (t.history ≡ message (codes "assistant") (codes "hi") ∷ [])
    × (t.count ≡ 2)
    × (t.trace ≡ [])
send_prompt_interrupted_example =
    send_prompt_interrupted desk never 9 (codes "hello") (session [] (codes "build"))
      (λ history. refl) refl
