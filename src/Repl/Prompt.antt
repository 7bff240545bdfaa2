-- ===== src/Repl/Prompt.antt =====
-- src/repl/repl_chat.cpp: what `send_prompt` makes of the user's line before it calls the model.
use llama_cli.Base.Words.{drop_while, is_one_of}
use llama_cli.Provider.Message.{Message}
use llama_cli.Repl.Console.{Desk, ReplState, print, reset, newline}
use llama_cli.Base.{
  ℕ, suc, ◌+◌, ◌-◌, Bool, false, not, ◌&&◌, ◌||◌, Option, none, some, List, [], ◌∷◌, ◌++◌, ltb, leb,
  ◌==◌, if◌then◌else◌, length, get_or, drop, Text, codes, is_empty, text_eq, substr, find,
  find_from,
}

abbrev is_blank : ℕ → Bool
is_blank c = c == b' ' || c == 9

abbrev is_break : ℕ → Bool
is_break c = c == b'\n' || c == b' '

-- the spaces and tabs at the front are dropped
unfoldable pub trim_front : Text → Text
trim_front line = drop_while is_blank line

unfoldable pub drop_back : (ℕ → Bool) → Text → Text
drop_back p [] = []
drop_back p (c ∷ s) = elim (drop_back p s) [ [] ↦ if p c then [] else c ∷ [] | d ∷ t ↦ c ∷ d ∷ t ]

unfoldable pub trim_breaks : Text → Text
trim_breaks cmd = drop_while is_break (drop_back is_break cmd)

-- the text of a fence behind its first line; where its end comes before that line's, the difference
-- wraps, and it is all the rest
unfoldable pub fenced : Text → ℕ → Text
fenced content tick = elim (find_from newline content tick) [
  | none ↦ []
  | some start ↦ elim (find_from (codes "```") content (tick + 3)) [
    | none ↦ []
    | some end ↦
        if ltb end (start + 1)
        then drop (start + 1) content
        else substr content (start + 1) (end - start - 1)
  ]
]

unfoldable pub inline : Text → ℕ → Text
inline content tick = elim (find_from (codes "`") content (tick + 1)) [
  | none ↦ []
  | some end ↦ substr content (tick + 1) (end - tick - 1)
]

-- the command that an answer quotes, if it is one line
unfoldable pub quoted_command : Text → Option Text
quoted_command content = elim (find (codes "`") content) [
  | none ↦ none
  | some tick ↦
      let cmd = trim_breaks (
        if text_eq (substr content tick 3) (codes "```")
        then fenced content tick
        else inline content tick) in
      if is_empty cmd then none else elim (find newline cmd) [ none ↦ some cmd | some at ↦ none ]
]

unfoldable pub last_message : List Message → Option Message
last_message [] = none
last_message (m ∷ []) = some m
last_message (m ∷ n ∷ history) = last_message (n ∷ history)

abbrev assents : List Text
assents = codes "y" ∷ codes "yes" ∷ codes "ja" ∷ []

-- a yes to an answer that quotes a command
unfoldable pub assented_command : Text → List Message → Option Text
assented_command trimmed history =
    if not (is_one_of assents trimmed) then none else elim (last_message history) [
      | none ↦ none
      | some last ↦
          if text_eq last.role (codes "assistant") then quoted_command last.content else none
    ]

unfoldable pub spaces : Text → ℕ
spaces [] = 0
spaces (c ∷ s) = if c == b' ' then suc (spaces s) else spaces s

-- less than three words that do not end in a question mark
unfoldable pub is_short : Text → Bool
is_short trimmed = ltb (1 + spaces trimmed) 3 && not (get_or trimmed (length trimmed - 1) 0 == b'?')

-- the search for an equal prompt, which goes backwards
unfoldable pub is_repeat : List Message → Text → Bool
is_repeat [] input = false
is_repeat (m ∷ history) input =
    (text_eq m.role (codes "user") && text_eq m.content input) || is_repeat history input

module _ (desk : Desk) where
  abbrev hint_line : Text → Text
  hint_line text = desk.theme.warning ++ (text ++ (reset ++ newline))

  -- the line that is sent, with what the screen shows of a quoted command
  unfoldable pub input_of : Text → Text → ReplState desk → Text × ReplState desk
  input_of line trimmed s = elim (assented_command trimmed s.history) [
    | none ↦ (line, s)
    | some cmd ↦ (codes "!" ++ cmd, print desk s (codes "[running: " ++ (cmd ++ codes "]\n")))
  ]

  unfoldable pub short_hint : Text → ReplState desk → ReplState desk
  short_hint trimmed s =
      if is_short trimmed
      then print desk s (
          hint_line
            (codes "[hint: short prompt " ++ (226 ∷ 128 ∷ 148 ∷ codes " try adding more context]")))
      else s

  unfoldable pub repeat_hint : Text → ReplState desk → ReplState desk
  repeat_hint input s =
      if leb 2 (length s.history) && is_repeat s.history input
      then print desk s (
          hint_line
            (codes "[hint: same as a previous prompt " ++ (226 ∷ 128 ∷ 148 ∷ codes " rephrase?]")))
      else s
