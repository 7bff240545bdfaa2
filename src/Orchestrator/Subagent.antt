-- ===== src/Orchestrator/Subagent.antt =====
-- src/orchestrator/subagent.cpp: what is meant for another agent, and its call. `run` is the run of a command
-- with its limits, `chat` the call of the model, `prompt_files` the templates that are there.
use llama_cli.Base.Int.{ℤ, pos, negsuc}
use llama_cli.Util.Encode.{shell_escape, strip_ansi}
use llama_cli.Command.Exec.{ExecResult}
use llama_cli.Provider.Message.{Message}
use llama_cli.Agent.Config.{AgentConfig, find_agent_config}
use llama_cli.Base.{
  ℕ, ◌+◌, ◌-◌, Bool, false, not, ◌&&◌, ◌||◌, Option, none, some, List, [], ◌∷◌, ◌++◌, ◌==◌,
  if◌then◌else◌, length, take, drop, Text, codes, is_empty, text_eq, find,
}

pub record MentionResult : Type 0 where
  pub has_mention : Bool
  pub agent : Text
  pub prompt : Text

abbrev pub no_mention : MentionResult
no_mention = record { has_mention = false; agent = []; prompt = [] }

-- split at the first blank
unfoldable pub parse_mention : Text → MentionResult
parse_mention [] = no_mention
parse_mention (c ∷ input) = if not (c == b'@') then no_mention else elim (find (codes " ") input) [
  | none ↦ no_mention
  | some space ↦
      let agent = take space input in
      let prompt = drop (space + 1) input in
      record {
        has_mention = not (is_empty agent) && not (is_empty prompt);
        agent = agent;
        prompt = prompt;
      }
]

abbrev is_success : ℤ → Bool
is_success (pos code) = code == 0
is_success (negsuc n) = false

abbrev pub plain_message : Text → Text → Message
plain_message role content = record { role = role; content = content; rating = []; images = [] }

-- the messages of others than the system
unfoldable pub without_system : List Message → List Message
without_system [] = []
without_system (m ∷ history) =
    let rest = without_system history in if text_eq m.role (codes "system") then rest else m ∷ rest

-- what an internal agent is asked: its prompt, the last four messages, the new one
unfoldable pub agent_context : Text → Text → List Message → List Message
agent_context system_prompt prompt history =
    (if is_empty system_prompt then [] else plain_message (codes "system") system_prompt ∷ [])
    ++ (without_system (drop (length history - 4) history)
        ++ plain_message (codes "user") prompt ∷ [])

-- the template of an agent, empty if there is none
unfoldable pub agent_prompt : List AgentConfig → (Text → Option Text) → Text → Text
agent_prompt agents prompt_files agent = elim (find_agent_config agents agent) [
  | none ↦ []
  | some cfg ↦
      if is_empty cfg.prompt_file
      then []
      else elim (prompt_files (codes "res/agents/prompts/" ++ cfg.prompt_file)) [
        | none ↦ []
        | some content ↦ content
      ]
]

unfoldable pub invoke_internal :
    List AgentConfig
    → (Text → Option Text)
    → (List Message → Text)
    → Text
    → Text
    → List Message
    → Text
invoke_internal agents prompt_files chat agent prompt history =
    chat (agent_context (agent_prompt agents prompt_files agent) prompt history)

module _ (to_string : ℤ → Text) (run : Text → ℕ → ℕ → ExecResult) where
  unfoldable pub invoked : Text → Text → Text
  invoked agent cmd =
      let result = run cmd 120 100000 in
      if is_success result.exit_code
      then strip_ansi result.output
      else b'[' ∷ (agent ++ (codes " error: exit " ++ (to_string result.exit_code ++ codes "]")))

  unfoldable pub invoke_q : Text → Text
  invoke_q prompt = invoked (codes "q") (codes "q chat " ++ shell_escape prompt)

  unfoldable pub invoke_opencode : Text → Text
  invoke_opencode prompt =
      invoked (codes "opencode") (codes "echo " ++ (shell_escape prompt ++ codes " | opencode"))

  unfoldable pub invoke_subagent :
      List AgentConfig
      → (Text → Option Text)
      → (List Message → Text)
      → Text
      → Text
      → List Message
      → Text
  invoke_subagent agents prompt_files chat agent prompt history =
      if text_eq agent (codes "q") || text_eq agent (codes "amazon-q")
      then invoke_q prompt
      else if text_eq agent (codes "opencode") || text_eq agent (codes "oc")
      then invoke_opencode prompt
      else invoke_internal agents prompt_files chat agent prompt history
