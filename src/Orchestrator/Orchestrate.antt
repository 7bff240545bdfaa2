-- ===== src/Orchestrator/Orchestrate.antt =====
-- src/orchestrator/orchestrator.cpp: which agent takes a complex prompt. `available` is the search for a
-- tool, `invoke` the call of another agent, `chat` that of the model with a system prompt; `plan_prompt` is the
-- file with the template, empty if it is not there.
use llama_cli.Planner.Classify.{
  Complexity, simple_prompt, medium_prompt, complex_prompt, classify_prompt,
}
use llama_cli.Orchestrator.Task.{TaskStep, TaskPlan, pending, tool_to_string, parse_task_plan}
use llama_cli.Base.{
  ℕ, Bool, true, false, not, Option, none, some, List, [], ◌∷◌, ◌++◌, if◌then◌else◌, ◌>>=◌, Text,
  codes, is_empty,
}

pub record OrchestratorResult : Type 0 where
  pub plan : TaskPlan
  pub response : Text
  pub used_plan : Bool

abbrev pub is_complex : Complexity → Bool
is_complex complex_prompt = true
is_complex medium_prompt = false
is_complex simple_prompt = false

unfoldable pub should_orchestrate : Text → Bool
should_orchestrate prompt = is_complex (classify_prompt prompt)

unfoldable pub inline_plan_prompt : Text
inline_plan_prompt =
    codes
      "Output a JSON task plan: {\"goal\":\"...\",\"steps\":[{\"id\":1,\"tool\":\"read|write|str_replace|exec\","
    ++ codes "\"action\":\"...\",\"input\":{}}]}"

-- the binaries in the order of preference, and the names of their agents
unfoldable pub agent_tools : List (Text × Text)
agent_tools =
    (codes "q", codes "q")
    ∷ (codes "opencode", codes "opencode")
    ∷ (codes "kiro-cli-chat", codes "kiro")
    ∷ []

unfoldable pub first_available : (Text → Bool) → List (Text × Text) → Option Text
first_available available [] = none
first_available available ((binary, agent) ∷ tools) =
    if available binary then some agent else first_available available tools

abbrev pub goal_plan : Text → TaskPlan
goal_plan prompt = record { goal = prompt; steps = []; status = pending }

module _ (to_string : ℕ → Text) where
  unfoldable pub format_steps : List TaskStep → Text
  format_steps [] = []
  format_steps (step ∷ steps) =
      codes "  "
      ++ (to_string step.id
          ++ (codes ". ["
              ++ (tool_to_string step.tool
                  ++ (codes "] " ++ (step.action ++ (b'\n' ∷ format_steps steps))))))

  unfoldable pub format_plan : TaskPlan → Text
  format_plan plan = codes "[plan] " ++ (plan.goal ++ (b'\n' ∷ format_steps plan.steps))

-- the plan of the local model; `none` is an exception of the reader
unfoldable pub local_plan : Text → (Text → Text → Text) → Text → Option TaskPlan
local_plan plan_prompt chat prompt = do
  plan ←
      parse_task_plan
        (chat (if is_empty plan_prompt then inline_plan_prompt else plan_prompt) prompt)
  some (if is_empty plan.steps then record plan { goal = prompt } else plan)

unfoldable pub orchestrate :
    (ℕ → Text)
    → (Text → Bool)
    → (Text → Text → Text)
    → Text
    → (Text → Text → Text)
    → Text
    → Option OrchestratorResult
orchestrate to_string available invoke plan_prompt chat prompt =
    if not (should_orchestrate prompt)
    then some (record { plan = goal_plan prompt; response = []; used_plan = false })
    else elim (first_available available agent_tools) [
      | some agent ↦
          some
            (record { plan = goal_plan prompt; response = invoke agent prompt; used_plan = true })
      | none ↦ elim (local_plan plan_prompt chat prompt) [
        | none ↦ none
        | some plan ↦
            if is_empty plan.steps
            then some (record { plan = goal_plan prompt; response = []; used_plan = false })
            else some
                (record { plan = plan; response = format_plan to_string plan; used_plan = true })
      ]
    ]
