-- ===== src/Command/Input.antt =====
-- src/command/command.cpp: `is_exit`, `parse_slash` and `parse_input`.
use llama_cli.Base.{
  ◌+◌, ◌-◌, Bool, not, ◌&&◌, ◌||◌, none, some, [], ltb, ◌==◌, if◌then◌else◌, length, drop, Text,
  codes, is_empty, text_eq, char_at, substr, find,
}

pub data InputType : Type 0 where
  prompt : InputType
  slash_command : InputType
  exit_input : InputType
  exec : InputType
  exec_context : InputType

pub record ParsedInput : Type 0 where
  pub type : InputType
  pub command : Text
  pub arg : Text

unfoldable pub is_exit : Text → Bool
is_exit line =
    text_eq line (codes "exit")
    || text_eq line (codes "quit")
    || text_eq line (codes "/exit")
    || text_eq line (codes "/quit")

unfoldable pub parse_slash : Text → ParsedInput
parse_slash line = elim (find (codes " ") line) [
  | some space ↦ record {
    type = slash_command;
    command = substr line 1 (space - 1);
    arg = drop (space + 1) line;
  }
  | none ↦ record { type = slash_command; command = drop 1 line; arg = [] }
]

unfoldable pub parse_input : Text → ParsedInput
parse_input line =
    if is_exit line
    then record { type = exit_input; command = []; arg = [] }
    else if ltb 2 (length line) && char_at line 0 == b'!' && char_at line 1 == b'!'
    then record { type = exec_context; command = []; arg = drop 2 line }
    else if ltb 1 (length line) && char_at line 0 == b'!'
    then record { type = exec; command = []; arg = drop 1 line }
    else if not (is_empty line) && char_at line 0 == b'/'
    then parse_slash line
    else record { type = prompt; command = []; arg = line }
