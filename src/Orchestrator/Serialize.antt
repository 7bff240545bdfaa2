-- ===== src/Orchestrator/Serialize.antt =====
-- src/orchestrator/task.cpp: `serialize_task_plan`. The texts go into the JSON as they are;
-- `to_string` is how an `int` is printed.
use llama_cli.Json.Escape.{escape_json}
use llama_cli.Json.Strings.{json_extract_string}
use llama_cli.Json.RoundTrip.{keyed, extract-escape}
use llama_cli.Orchestrator.Task.{TaskStep, TaskPlan, tool_to_string, status_to_string}
use llama_cli.Base.{ℕ, ◌≡◌, refl, sym, ap, ◌∙◌, some, List, [], ◌∷◌, ◌++◌, Text, codes, find}

-- a text in quotes, and what follows
abbrev quoted : Text → Text → Text
quoted s rest = b'"' ∷ (s ++ b'"' ∷ rest)

-- a comma before each but the first
abbrev comma : Text → Text
comma [] = []
comma (c ∷ s) = b',' ∷ (c ∷ s)

unfoldable pub input_pairs : List (Text × Text) → Text
input_pairs [] = []
input_pairs ((key, val) ∷ rest) = quoted key (b':' ∷ quoted val (comma (input_pairs rest)))

unfoldable pub input_part : List (Text × Text) → Text
input_part [] = []
input_part (x ∷ input) = codes ",\"input\":{" ++ (input_pairs (x ∷ input) ++ codes "}")

unfoldable pub step_text : (ℕ → Text) → TaskStep → Text
step_text to_string s =
    codes "{\"id\":"
    ++ (to_string s.id
        ++ (codes ",\"tool\":"
            ++ quoted (tool_to_string s.tool) (
                codes ",\"action\":"
                ++ quoted s.action (
                    codes ",\"status\":"
                    ++ quoted (status_to_string s.status) (input_part s.input ++ codes "}")))))

unfoldable pub step_texts : (ℕ → Text) → List TaskStep → Text
step_texts to_string [] = []
step_texts to_string (s ∷ steps) = step_text to_string s ++ comma (step_texts to_string steps)

unfoldable pub serialize_task_plan : (ℕ → Text) → TaskPlan → Text
serialize_task_plan to_string plan =
    codes "{\"goal\":"
    ++ quoted plan.goal (
        codes ",\"status\":"
        ++ quoted (status_to_string plan.status)
            (codes ",\"steps\":[" ++ (step_texts to_string plan.steps ++ codes "]}")))

-- A goal that needs no escaping is read back from the serialized plan.
serialized-goal :
    (to_string : ℕ → Text) (plan : TaskPlan)
    → escape_json plan.goal ≡ plan.goal
    → json_extract_string (serialize_task_plan to_string plan) (codes "goal") ≡ some plan.goal
unfolding serialize_task_plan
serialized-goal to_string plan plain =
    let rest =
      codes ",\"status\":"
      ++ quoted (status_to_string plan.status)
          (codes ",\"steps\":[" ++ (step_texts to_string plan.steps ++ codes "]}")) in
    let read =
      extract-escape (codes "{") (codes "goal") [] rest plan.goal (unfold find in refl) tt in
    sym (
      ap
        (λ goal.
          json_extract_string (keyed (codes "{") (codes "goal") [] (quoted goal rest))
            (codes "goal"))
        plain)
    ∙ read
