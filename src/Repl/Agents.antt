-- ===== src/Repl/Agents.antt =====
-- src/repl/repl_commands.cpp: `/agent`, which switches the prompt of the system.
use llama_cli.Provider.Message.{Message}
use llama_cli.Agent.Config.{AgentConfig, AgentMode, primary, subagent, find_agent_config}
use llama_cli.Agent.Persona.{AgentPersona, find_persona}
use llama_cli.Repl.Console.{Desk}
use llama_cli.Repl.Chat.{message}
use llama_cli.Repl.Panel.{Outside, Panel, say, dash}
use llama_cli.Base.{
  ◌||◌, none, some, List, [], ◌∷◌, ◌++◌, if◌then◌else◌, take, Text, codes, is_empty, text_eq, find,
}

-- the front message of the system becomes this prompt, or stands in front
unfoldable pub with_system : Text → List Message → List Message
with_system prompt [] = message (codes "system") prompt ∷ []
with_system prompt (m ∷ history) =
    if text_eq m.role (codes "system")
    then record m { content = prompt } ∷ history
    else message (codes "system") prompt ∷ m ∷ history

-- only where the system speaks first
unfoldable pub reset_system : Text → List Message → List Message
reset_system prompt [] = []
reset_system prompt (m ∷ history) =
    if text_eq m.role (codes "system") then record m { content = prompt } ∷ history else m ∷ history

module _ (desk : Desk) (outside : Outside desk) where
  abbrev pub described : Text → Text → Text
  described name description = name ++ (dash ++ description)

  abbrev pub mode_text : AgentMode → Text
  mode_text primary = codes "primary"
  mode_text subagent = codes "subagent"

  unfoldable pub agent_lines : List AgentConfig → Text
  agent_lines [] = []
  agent_lines (a ∷ agents) =
      codes "  "
      ++ (described a.name a.description
          ++ (codes " [" ++ (mode_text a.mode ++ (codes "]\n" ++ agent_lines agents))))

  unfoldable pub persona_lines : List AgentPersona → Text
  persona_lines [] = []
  persona_lines (q ∷ personas) =
      codes "  " ++ (described q.name q.description ++ (codes "\n" ++ persona_lines personas))

  -- the name under which the prompt of an agent is found
  unfoldable pub prompt_name : AgentConfig → Text
  prompt_name a = if is_empty a.prompt_file then a.name else elim (find (codes ".") a.prompt_file) [
    | none ↦ a.prompt_file
    | some dot ↦ take dot a.prompt_file
  ]

  abbrev pub agent_line : Text → Text → Text
  agent_line name description = codes "[agent: " ++ (described name description ++ codes "]\n")

  unfoldable pub take_agent : AgentConfig → Panel desk → Panel desk
  take_agent a p =
      let prompt = outside.prompt_of (prompt_name a) in
      say desk
        (record p {
          active_agent = a.name;
          history = if is_empty prompt then p.history else with_system prompt p.history;
        })
        (agent_line a.name a.description)

  unfoldable pub take_persona : Text → Panel desk → Panel desk
  take_persona arg p = elim (find_persona outside.personas arg) [
    | none ↦
        say desk p
          (codes "Unknown agent: " ++ (arg ++ codes ". Type /agent list to see options.\n"))
    | some q ↦
        say desk
          (record p {
            active_agent = codes "build";
            history = with_system q.system_prompt p.history;
          })
          (agent_line q.name q.description)
  ]

  unfoldable pub handle_agent : Text → Panel desk → Panel desk
  handle_agent arg p =
      if is_empty arg || text_eq arg (codes "list")
      then say desk p (
          codes "Available agents:\n"
          ++ (agent_lines p.agents
              ++ ((if is_empty outside.personas
                    then []
                    else codes "Personas:\n" ++ persona_lines outside.personas)
                  ++ (codes "Active: " ++ (p.active_agent ++ codes "\n")))))
      else if text_eq arg (codes "off") || text_eq arg (codes "reset")
      then say desk
          (record p {
            active_agent = codes "build";
            history = reset_system p.extras.system_prompt p.history;
          })
          (codes "[agent: build" ++ (dash ++ codes "default restored]\n"))
      else elim (find_agent_config p.agents arg) [
        | some a ↦ take_agent a p
        | none ↦ take_persona arg p
      ]
