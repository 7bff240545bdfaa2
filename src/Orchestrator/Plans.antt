-- ===== src/Orchestrator/Plans.antt =====
-- The loops of `parse_task_plan` end, and the names of the tools are read back.
use llama_cli.Base.Int.{ℤ, pos, is_zero}
use llama_cli.Base.Search.{find_from_bounds}
use llama_cli.Orchestrator.Task.{
  Tool, read_tool, write_tool, str_replace_tool, exec_tool, git_tool, tool_to_string,
  string_to_tool, depth_after, closing_brace, object_end, at_array_end, step_objects, plan_objects,
}
use llama_cli.Base.{
  ℕ, zero, suc, ◌+◌, ◌-◌, ◌≤◌, ◌<◌, ◌≡◌, refl, inl, inr, ◌||◌, some, List, [], ◌∷◌, arith, leb,
  Bool-cases, Option-cases, length, drop, length-drop, Text, codes, text_eq, substr, find,
  find_from,
}

-- `string_to_tool` reads the name of every tool back.
pub string_to_tool-tool_to_string : (t : Tool) → string_to_tool (tool_to_string t) ≡ t
unfolding string_to_tool tool_to_string text_eq
string_to_tool-tool_to_string read_tool = refl
string_to_tool-tool_to_string write_tool = refl
string_to_tool-tool_to_string str_replace_tool = refl
string_to_tool-tool_to_string exec_tool = refl
string_to_tool-tool_to_string git_tool = refl

closing_brace-le :
    (s : Text) (i : ℕ) (depth : ℤ) (j : ℕ)
    → closing_brace s i depth ≡ some j
    → (i ≤ j) × (j < i + length s)
unfolding closing_brace
closing_brace-le [] i depth j e = ground (arith, e)
closing_brace-le (c ∷ s) i depth j e = elim (Bool-cases (is_zero (depth_after c depth))) [
  | inl closed ↦ ground (arith, closed, e)
  | inr inner ↦
      let later : closing_brace s (1 + i) (depth_after c depth) ≡ some j =
        ground (arith, inner, e) in
      let r = closing_brace-le s (1 + i) (depth_after c depth) j later in
      (omega (arith, r.0), omega (arith, r.1))
]

object_end-le :
    (json : Text) (at : ℕ)
    → at < length json
    → (at ≤ object_end json at) × (object_end json at < length json)
unfolding object_end
object_end-le json at lt = elim (Option-cases (closing_brace (drop at json) at (pos 0))) [
  | inl e ↦ rw (e, object_end) (omega arith, lt)
  | inr (j, e) ↦
      rw (e, object_end)
        (let r = closing_brace-le (drop at json) at (pos 0) j e in
          (r.0, omega (arith, r.1, length-drop at json)))
]

-- With a round for each byte left the loop ends.
step_objects_total :
    (json : Text) (rounds at : ℕ)
    → length json < at + rounds
    → at ≤ length json
    → (objects : List Text) × (step_objects json rounds at ≡ some objects)
unfolding step_objects
step_objects_total json zero at h le = absurd (omega arith)
step_objects_total json (suc rounds) at h le = elim (Option-cases (find_from (codes "{") json at)) [
  | inl e ↦ ([], rw (e, step_objects))
  | inr (obj_start, e) ↦
      let (near, far) = find_from_bounds (codes "{") json at obj_start e in
      let (ge, lt) = object_end-le json obj_start (omega arith) in
      let (later, e') =
        step_objects_total json rounds (object_end json obj_start + 1) (omega arith)
          (omega arith) in
      let next = object_end json obj_start + 1 in
      let obj = substr json obj_start (next - obj_start) in
      elim (Bool-cases (at_array_end json next || leb (length json) next)) [
        | inl ends ↦ (obj ∷ [], rw (e, step_objects) (rw ends))
        | inr more ↦ (obj ∷ later, rw (e, step_objects) (rw more (rw e')))
      ]
]

-- On every text the loops that look for the steps of a plan end: with the fuel of the model they
-- find a list of objects.
pub plan_objects_total : (json : Text) → (objects : List Text) × (plan_objects json ≡ some objects)
unfolding plan_objects
plan_objects_total json = elim (Option-cases (find (codes "\"steps\"") json)) [
  | inl e ↦ ([], rw (e, plan_objects))
  | inr (steps_start, e) ↦ elim (Option-cases (find_from (codes "[") json steps_start)) [
    | inl e' ↦ ([], rw (e, plan_objects) (rw e'))
    | inr (arr_start, e') ↦
        let (_, far) = find_from_bounds (codes "[") json steps_start arr_start e' in
        let (objects, found) =
          step_objects_total json (length json + 1) (arr_start + 1) (omega arith) (omega arith) in
        (objects, rw (e, plan_objects) (rw e' (rw found)))
  ]
]
