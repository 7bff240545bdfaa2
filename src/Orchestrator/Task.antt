-- ===== src/Orchestrator/Task.antt =====
-- src/orchestrator/task.cpp: the names of tools and statuses, and `parse_task_plan`. `none` is an
-- exception of `json_extract_string`, or the overflow of an `int`. The other
-- direction is in Orchestrator.Serialize.
use llama_cli.Base.Int.{ℤ, pos, increment, decrement, is_zero}
use llama_cli.Base.Words.{drop_while}
use llama_cli.Json.Strings.{json_extract_string}
use llama_cli.Json.Numbers.{json_extract_int}
use llama_cli.Json.Braces.{json_extract_object}
use llama_cli.Base.{
  ℕ, zero, suc, ◌+◌, ◌-◌, Bool, false, ◌||◌, Option, none, some, List, [], ◌∷◌, leb, ◌==◌,
  if◌then◌else◌, ◌>>=◌, length, drop, Text, codes, is_empty, text_eq, substr, find, find_from,
}

pub data Tool : Type 0 where
  read_tool : Tool
  write_tool : Tool
  str_replace_tool : Tool
  exec_tool : Tool
  git_tool : Tool

pub data Status : Type 0 where
  pending : Status
  running : Status
  completed : Status
  failed : Status
  skipped : Status

pub record TaskStep : Type 0 where
  pub id : ℕ
  pub tool : Tool
  pub action : Text
  pub input : List (Text × Text)
  pub status : Status
  pub result : Text
  pub retries : ℕ

pub record TaskPlan : Type 0 where
  pub goal : Text
  pub steps : List TaskStep
  pub status : Status

unfoldable pub tool_to_string : Tool → Text
tool_to_string read_tool = codes "read"
tool_to_string write_tool = codes "write"
tool_to_string str_replace_tool = codes "str_replace"
tool_to_string exec_tool = codes "exec"
tool_to_string git_tool = codes "git"

unfoldable pub string_to_tool : Text → Tool
string_to_tool s =
    if text_eq s (codes "write")
    then write_tool
    else if text_eq s (codes "str_replace")
    then str_replace_tool
    else if text_eq s (codes "exec")
    then exec_tool
    else if text_eq s (codes "git")
    then git_tool
    else read_tool

unfoldable pub status_to_string : Status → Text
status_to_string pending = codes "pending"
status_to_string running = codes "running"
status_to_string completed = codes "completed"
status_to_string failed = codes "failed"
status_to_string skipped = codes "skipped"

unfoldable pub depth_after : ℕ → ℤ → ℤ
depth_after c depth =
    if c == b'{' then increment depth else if c == b'}' then decrement depth else depth

-- The loop that finds the closing brace, over the bytes from position `i` on. It reads braces in
-- strings as well.
unfoldable pub closing_brace : Text → ℕ → ℤ → Option ℕ
closing_brace [] i depth = none
closing_brace (c ∷ s) i depth =
    let later = closing_brace s (1 + i) (depth_after c depth) in
    if is_zero (depth_after c depth) then some i else later

-- `obj_end`, which stays at the opening brace if none closes it
unfoldable pub object_end : Text → ℕ → ℕ
object_end json obj_start = elim (closing_brace (drop obj_start json) obj_start (pos 0)) [
  | none ↦ obj_start
  | some i ↦ i
]

-- is the next byte of interest the end of the array
unfoldable pub at_array_end : Text → ℕ → Bool
at_array_end json next =
    elim (drop_while (λ c. c == b' ' || c == b'\t' || c == b'\n' || c == 13 || c == b',')
      (drop next json)) [ [] ↦ false | c ∷ rest ↦ c == b']' ]

-- The loop over the array: the texts of the objects. Each round moves behind one of them, so that a
-- round for each byte and one more is enough.
unfoldable pub step_objects : Text → ℕ → ℕ → Option (List Text)
step_objects json zero at = none
step_objects json (suc rounds) at = elim (find_from (codes "{") json at) [
  | none ↦ some []
  | some obj_start ↦
      let next = object_end json obj_start + 1 in
      let obj = substr json obj_start (next - obj_start) in
      let later = step_objects json rounds next in
      if at_array_end json next || leb (length json) next
      then some (obj ∷ [])
      else later >>= λ objects. some (obj ∷ objects)
]

unfoldable pub input_keys : List Text
input_keys =
    codes "path" ∷ codes "cmd" ∷ codes "old" ∷ codes "new" ∷ codes "content" ∷ codes "branch" ∷ []

unfoldable pub read_inputs : Text → List Text → Option (List (Text × Text))
read_inputs input [] = some []
read_inputs input (key ∷ keys) = do
  val ← json_extract_string input key
  rest ← read_inputs input keys
  some (if is_empty val then rest else (key, val) ∷ rest)

unfoldable pub parse_step : Text → Option TaskStep
parse_step obj = do
  id ← json_extract_int obj (codes "id")
  tool ← json_extract_string obj (codes "tool")
  action ← json_extract_string obj (codes "action")
  let input = json_extract_object obj (codes "input")
  inputs ← if is_empty input then some [] else read_inputs input input_keys
  some (record {
    id = id;
    tool = string_to_tool tool;
    action = action;
    input = inputs;
    status = pending;
    result = [];
    retries = 0;
  })

unfoldable pub parse_each : List Text → Option (List TaskStep)
parse_each [] = some []
parse_each (obj ∷ objects) = do
  step ← parse_step obj
  steps ← parse_each objects
  some (step ∷ steps)

-- the objects of the array behind "steps", none if there is no array
unfoldable pub plan_objects : Text → Option (List Text)
plan_objects json = elim (find (codes "\"steps\"") json) [
  | none ↦ some []
  | some steps_start ↦ elim (find_from (codes "[") json steps_start) [
    | none ↦ some []
    | some arr_start ↦ step_objects json (length json + 1) (arr_start + 1)
  ]
]

unfoldable pub parse_task_plan : Text → Option TaskPlan
parse_task_plan json = do
  goal ← json_extract_string json (codes "goal")
  objects ← plan_objects json
  steps ← parse_each objects
  some (record { goal = goal; steps = steps; status = pending })
