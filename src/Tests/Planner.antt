-- ===== src/Tests/Planner.antt =====
-- src/planner/planner.cpp, src/agent/agent.cpp and src/orchestrator on concrete inputs.
use llama_cli.Orchestrator.Subagent.{parse_mention}
use llama_cli.Base.Words.{contains_any}
use llama_cli.Config.Options.{words_from}
use llama_cli.Provider.Message.{ModelInfo}
use llama_cli.Planner.Classify.{
  to_lower, word_count, count_byte, code_markers, complexity_markers, has_code_markers,
  has_complexity_markers, classify_prompt, medium_prompt, complex_prompt, simple_prompt,
}
use llama_cli.Planner.Route.{Doubles}
use llama_cli.Orchestrator.Template.{render_template, filled_in, value_of}
use llama_cli.Orchestrator.Render.{Piece, template_of, rendered, render_template_of}
use llama_cli.Json.Scan.{find_key_value}
use llama_cli.Json.Strings.{json_extract_string, extract_at, read_string, is_end_quote, read_char}
use llama_cli.Orchestrator.Task.{
  TaskPlan, read_tool, running, completed, tool_to_string, status_to_string,
}
use llama_cli.Orchestrator.Serialize.{
  serialize_task_plan, step_texts, step_text, input_part, input_pairs,
}
use llama_cli.Orchestrator.Orchestrate.{first_available, agent_tools}
use llama_cli.Base.{
  true, ◌-◌, is_empty, char_at, if◌then◌else◌, ℕ, ◌+◌, ◌≡◌, refl, ◌||◌, none, some, List, [], ◌∷◌,
  ◌++◌, arith, leb, Text, codes, text_eq, starts_with, find,
}

greets : classify_prompt (codes "hello there") ≡ simple_prompt
unfolding classify_prompt has_code_markers has_complexity_markers to_lower word_count count_byte
    code_markers complexity_markers words_from contains_any find starts_with
greets = refl

asks : classify_prompt (codes "is it late?") ≡ medium_prompt
unfolding classify_prompt has_code_markers has_complexity_markers to_lower word_count count_byte
    code_markers complexity_markers words_from contains_any find starts_with
asks = refl

debugs : classify_prompt (codes "Debug it") ≡ complex_prompt
unfolding classify_prompt has_code_markers has_complexity_markers to_lower word_count count_byte
    code_markers complexity_markers words_from contains_any find starts_with
debugs = refl

abbrev small_model : ModelInfo
small_model = record {
  name = codes "tiny";
  params = codes "3B";
  quant = [];
  family = codes "llama";
  size_gb = [];
}

abbrev infos_of : Text → Text → List ModelInfo
infos_of host port = small_model ∷ []

-- whole numbers, with `std::stod` of texts of one digit
abbrev wholes : Doubles
wholes = record {
  Number = ℕ;
  whole = λ n. n;
  le = leb;
  stod = λ s. if is_empty s then none else some (char_at s 0 - b'0');
}

abbrev greeting : List Piece
greeting = (codes "Hi ", codes "user") ∷ (codes ", ", codes "who") ∷ []

abbrev named : List (Text × Text)
named = (codes "user", codes "Ann") ∷ []

render_template_of_example :
    render_template (template_of greeting (codes ".")) named
    ≡ some (rendered named greeting (codes "."))
render_template_of_example =
    render_template_of named greeting (codes ".")
      (
        (
          (omega arith, (omega arith, (omega arith, tt))),
          (omega arith, (omega arith, (omega arith, (omega arith, tt)))),
        ),
        (((omega arith, (omega arith, tt)), (omega arith, (omega arith, (omega arith, tt)))), tt),
      )
      (omega arith, tt)

fills : rendered named greeting (codes ".") ≡ codes "Hi Ann, {{who}}."
unfolding filled_in value_of text_eq
fills = refl

prefers :
    first_available
      (λ tool. text_eq tool (codes "opencode") || text_eq tool (codes "kiro-cli-chat"))
      agent_tools
    ≡ some (codes "opencode")
unfolding first_available agent_tools text_eq
prefers = refl

mentions_agent :
    parse_mention (codes "@q fix it")
    ≡ record { has_mention = true; agent = codes "q"; prompt = codes "fix it" }
unfolding parse_mention find starts_with
mentions_agent = refl

-- as `std::to_string` prints the ids of the first steps
abbrev digit : ℕ → Text
digit n = (b'0' + n) ∷ []

abbrev one_step : TaskPlan
one_step = record {
  goal = codes "fix";
  steps =
      record {
        id = 1;
        tool = read_tool;
        action = codes "look";
        input = (codes "path", codes "a") ∷ (codes "cmd", codes "ls") ∷ [];
        status = completed;
        result = [];
        retries = 0;
      }
      ∷ [];
  status = running;
}

serialized : serialize_task_plan digit one_step ≡ (
    codes "{\"goal\":\"fix\",\"status\":\"running\",\"steps\":[{\"id\":1,\"tool\":\"read\","
    ++ (codes "\"action\":\"look\",\"status\":\"completed\","
        ++ codes "\"input\":{\"path\":\"a\",\"cmd\":\"ls\"}}]}"))
unfolding serialize_task_plan step_texts step_text input_part input_pairs tool_to_string
    status_to_string
serialized = refl

-- a quote in the goal cuts it short when the plan is read back
cut_goal :
    json_extract_string
      (serialize_task_plan digit (record one_step { goal = codes "say \"hi\"" }))
      (codes "goal")
    ≡ some (codes "say ")
unfolding serialize_task_plan step_texts step_text input_part input_pairs tool_to_string
    status_to_string json_extract_string find_key_value extract_at read_string is_end_quote
    read_char
cut_goal = refl
