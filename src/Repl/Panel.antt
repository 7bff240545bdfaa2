-- ===== src/Repl/Panel.antt =====
-- What the commands of src/repl/repl_commands.cpp see and change: the part of `ReplState` that they use
-- with the global configuration, and what else of the system they call.
use llama_cli.Base.Int.{ℤ}
use llama_cli.Provider.Message.{Message}
use llama_cli.Provider.Registry.{ModelEntry}
use llama_cli.Agent.Config.{AgentConfig}
use llama_cli.Agent.Persona.{AgentPersona}
use llama_cli.Config.Settings.{Config}
use llama_cli.Repl.Console.{Desk, ReplState}
use llama_cli.Repl.Chat.{message}
use llama_cli.Base.{
  ℕ, ◌+◌, Bool, true, false, Option, none, some, List, [], ◌∷◌, ◌++◌, take, drop, Text, codes, find,
}

-- what a task has come to: `wait_for` a moment and `get`
pub data TaskStatus : Type 0 where
  running : TaskStatus
  done : Text → TaskStatus
  failed : Text → TaskStatus

-- Files: `make_dir` is `mkdir`, `remove` is `std::remove`, `entries` the names in a directory with
-- whether they are directories; the directory of the chats is fixed. `ask` is the call of the model,
-- `switch_to` the callback that switches the provider, `poll` the state of a task, `messages_of` the
-- number of messages of a spinner, `prompt_of` is `load_prompt`, `help_text` that of `/help all` or
-- `/help`, `page_size` the lines of a page on the terminal.
pub record Outside (desk : Desk) : Type 0 where
  pub make_dir : desk.State → Text → desk.State
  pub remove : desk.State → Text → Option desk.State
  pub entries : desk.State → Text → Option (List (Text × Bool))
  pub paste : desk.State → Option Text
  pub ask : desk.State → List Message → desk.State × Text
  pub scan : desk.State → List Text
  pub poll : desk.State → Text × Text → TaskStatus
  pub switch_to : Option (Config → Text → Config)
  pub display_name : Text → Text
  pub messages_of : Text → ℕ
  pub chat_dir : Text
  pub subnet : Text
  pub version : Text
  pub help_text : Bool → Text
  pub page_size : ℕ
  pub personas : List AgentPersona
  pub prompt_of : Text → Text

module _ (desk : Desk) where
  open desk use {State}

  -- `config` is `Config::instance()`, `registry` empty if there is none
  pub record Extras : Type 0 where
    pub bofh : Bool
    pub warmup : Bool
    pub mask_pii : Bool
    pub private_mode : Bool
    pub spinner_name : Text
    pub prompt_color : Text
    pub system_prompt : Text
    pub config : Config
    pub registry : List ModelEntry

  pub record Panel : Type 0 where
    pub state : State
    pub input : List Text
    pub out : Text
    pub color : Bool
    pub markdown : Bool
    pub tips_enabled : Bool
    pub ai_color : Text
    pub last_assistant_idx : ℤ
    pub history : List Message
    pub tasks : List (Text × Text)
    pub active_agent : Text
    pub exec_timeout : ℕ
    pub agents : List AgentConfig
    pub extras : Extras

  -- the session: the state that answers use, and the rest
  pub record Shell : Type 0 where
    pub repl : ReplState desk
    pub extras : Extras

  unfoldable pub panel_of : Shell → Panel
  panel_of shell = record {
    state = shell.repl.state;
    input = shell.repl.input;
    out = shell.repl.out;
    color = shell.repl.color;
    markdown = shell.repl.markdown;
    tips_enabled = shell.repl.tips_enabled;
    ai_color = shell.repl.ai_color;
    last_assistant_idx = shell.repl.last_assistant_idx;
    history = shell.repl.history;
    tasks = shell.repl.tasks;
    active_agent = shell.repl.active_agent;
    exec_timeout = shell.repl.cfg.exec_timeout;
    agents = shell.repl.agents;
    extras = shell.extras;
  }

  -- what a command changed; the trace, the trust and the settings of `s.cfg` are as before
  unfoldable pub put_back : Panel → Shell → Shell
  put_back p shell = record {
    repl = record shell.repl {
      state = p.state;
      input = p.input;
      out = p.out;
      color = p.color;
      markdown = p.markdown;
      tips_enabled = p.tips_enabled;
      ai_color = p.ai_color;
      last_assistant_idx = p.last_assistant_idx;
      history = p.history;
      tasks = p.tasks;
      active_agent = p.active_agent;
    };
    extras = p.extras;
  }

  abbrev pub say : Panel → Text → Panel
  say p text = record p { out = p.out ++ text }

  abbrev pub with_extras : Panel → Extras → Panel
  with_extras p x = record p { extras = x }

  abbrev pub with_config : Panel → Config → Panel
  with_config p c = record p { extras = record p.extras { config = c } }

  abbrev pub remembers : Panel → Text → Text → Panel
  remembers p role content = record p { history = p.history ++ message role content ∷ [] }

-- the parts of an argument at its first blank
abbrev pub first_word : Text → Text
first_word arg = elim (find (codes " ") arg) [ none ↦ arg | some space ↦ take space arg ]

abbrev pub behind_word : Text → Text
behind_word arg = elim (find (codes " ") arg) [ none ↦ [] | some space ↦ drop (space + 1) arg ]

abbrev pub on_off : Bool → Text
on_off true = codes "on"
on_off false = codes "off"

-- an em dash between blanks
abbrev pub dash : Text
dash = 32 ∷ 226 ∷ 128 ∷ 148 ∷ 32 ∷ []
