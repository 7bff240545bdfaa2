-- ===== src/Repl/Console.antt =====
-- The state of the interactive mode, and what it uses of the system: src/repl/repl_commands.h
-- (`ReplState`), `read_answer` and `permission_blocked` of src/repl/repl_annotations.cpp.
use llama_cli.Provider.Message.{Message}
use llama_cli.Command.Exec.{Process}
use llama_cli.Base.Int.{ℤ}
use llama_cli.Config.Delegation.{DelegationTarget, Roles}
use llama_cli.Agent.Config.{AgentConfig, deny, find_agent_config, check_permission}
use llama_cli.Base.{
  ℕ, Bool, true, false, Option, none, some, List, [], ◌∷◌, ◌++◌, ◌==◌, if◌then◌else◌, Text, codes,
}

pub data Edit : Type 0 where
  removed : Edit
  added : Edit
  common : Edit

pub record Theme : Type 0 where
  pub error : Text
  pub info : Text
  pub warning : Text
  pub system : Text
  pub ai : Text

-- The system: `read` and `write` are a file read to its end and a truncated one written, `launch` is
-- `popen` of a command, `make_backup_dir` the fixed `mkdir -p`, `copy` the clipboard, `diff` the edit
-- script of the dtl library, `to_string` that of a number. `search` is `web_search`, `start_task` a
-- background task for a target, `render` the markdown of an answer.
pub record Desk : Type 1 where
  pub State : Type 0
  pub read : State → Text → Option Text
  pub write : State → Text → Text → Option State
  pub launch : State → Text → State × Option Process
  pub make_backup_dir : State → State
  pub copy : State → Text → Option State
  pub search : State → Text → State × Text
  pub start_task : State → DelegationTarget → Text → State
  pub diff : List Text → List Text → List (Edit × Text)
  pub to_string : ℕ → Text
  pub render : Text → Bool → Text
  pub theme : Theme

-- What the user is asked about, and what an answer means.
pub data Subject : Type 0 where
  to_write : Text → Subject
  to_replace : Text → Subject
  to_run : Text → Subject
  to_delegate : Text → Subject

pub data Reply : Type 0 where
  yes_reply : Reply
  no_reply : Reply
  show_reply : Reply
  trust_reply : Reply
  copy_reply : Reply
  help_reply : Reply
  other_reply : Reply

-- The trace is no state of the program. It records the answers, and each write, command and task with what
-- it was for, the newest first.
pub data Act : Type 0 where
  asked : Subject → Reply → Act
  wrote : Subject → Text → Text → Act
  ran : Text → Act
  started : Text → Act

pub record ReplConfig : Type 0 where
  pub exec_timeout : ℕ
  pub max_output : ℕ
  pub max_history : ℤ
  pub auto_confirm_write : Bool
  pub allow_web_search : Bool
  pub model : Text
  pub roles : Roles

abbrev pub newline : Text
newline = b'\n' ∷ []

abbrev pub reset : Text
reset = 27 ∷ codes "[0m"

module _ (desk : Desk) where
  open desk use {State, theme}

  -- The input is the lines that are left; `terminal` is a terminal read by linenoise.
  pub record ReplState : Type 0 where
    pub state : State
    pub input : List Text
    pub out : Text
    pub terminal : Bool
    pub color : Bool
    pub markdown : Bool
    pub streaming : Bool
    pub trust : Bool
    pub ai_color : Text
    pub count : ℕ
    pub tips_enabled : Bool
    pub tips_interval : ℕ
    pub last_assistant_idx : ℤ
    pub history : List Message
    pub tasks : List (Text × Text)
    pub agents : List AgentConfig
    pub active_agent : Text
    pub cfg : ReplConfig
    pub trace : List Act

  abbrev pub print : ReplState → Text → ReplState
  print s text = record s { out = s.out ++ text }

  abbrev pub noted : ReplState → Act → ReplState
  noted s a = record s { trace = a ∷ s.trace }

  -- `tui::error`
  abbrev error_text : Bool → Text → Text
  error_text color msg =
      if color
      then newline ++ (theme.error ++ (msg ++ (reset ++ newline)))
      else newline ++ (msg ++ newline)

  unfoldable pub show_error : ReplState → Text → ReplState
  show_error s msg = print s (error_text s.color msg)

  -- a carriage return at the end is dropped, but not from a terminal
  unfoldable pub drop_return : Text → Text
  drop_return [] = []
  drop_return (c ∷ []) = if c == 13 then [] else c ∷ []
  drop_return (c ∷ d ∷ answer) = c ∷ drop_return (d ∷ answer)

  unfoldable pub answer_of : ReplState → Text → Text
  unfolding drop_return
  answer_of s line = if s.terminal then line else drop_return line

  -- linenoise shows the prompt itself
  unfoldable pub prompted : ReplState → Text → ReplState
  prompted s prompt = print s (if s.terminal then [] else prompt)

  unfoldable pub denied : ReplState → Text → Bool
  denied s tool = elim (find_agent_config s.agents s.active_agent) [
    | none ↦ false
    | some agent ↦ elim (check_permission agent tool) [ deny ↦ true | _ ↦ false ]
  ]

  -- the line that tells of a denied tool, with the agent's name
  unfoldable pub report_denied : Bool → ReplState → Text → ReplState
  report_denied color s tool = elim (find_agent_config s.agents s.active_agent) [
    | none ↦ s
    | some agent ↦ print s (
        error_text color (
          codes "[blocked] agent '"
          ++ (agent.name ++ (codes "' does not have " ++ (tool ++ codes " permission")))))
  ]
