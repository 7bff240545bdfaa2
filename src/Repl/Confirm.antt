-- ===== src/Repl/Confirm.antt =====
-- src/repl/repl_annotations.cpp: the questions of `confirm_write`, `process_str_replace` and
-- `confirm_exec`. A loop that asks again recurs on the lines of the input, of which each question
-- takes one; at their end, or at Ctrl-C, `read_answer` is false.
use llama_cli.Repl.Console.{
  Desk, Subject, to_write, Reply, yes_reply, no_reply, show_reply, trust_reply, copy_reply,
  help_reply, other_reply, asked, ReplState, print, noted, answer_of, prompted,
}
use llama_cli.Base.{
  Bool, true, false, ◌||◌, none, some, List, [], ◌∷◌, ◌++◌, if◌then◌else◌, Text, codes, text_eq,
}

unfoldable pub is_either : Text → Text → Text → Bool
is_either s a b = text_eq s a || text_eq s b

-- the tests of `confirm_write`, in their order
unfoldable pub write_reply : Text → Reply
write_reply answer =
    if is_either answer (codes "y") (codes "yes")
    then yes_reply
    else if is_either answer (codes "n") (codes "no")
    then no_reply
    else if is_either answer (codes "s") (codes "show")
    then show_reply
    else if is_either answer (codes "t") (codes "trust")
    then trust_reply
    else if is_either answer (codes "c") (codes "copy")
    then copy_reply
    else if text_eq answer (codes "?")
    then help_reply
    else other_reply

-- those of the other two, for which each other answer declines
unfoldable pub other_tool_reply : Text → Reply
other_tool_reply answer =
    if is_either answer (codes "y") (codes "yes")
    then yes_reply
    else if is_either answer (codes "t") (codes "trust")
    then trust_reply
    else if is_either answer (codes "c") (codes "copy")
    then copy_reply
    else if text_eq answer (codes "?")
    then help_reply
    else other_reply

-- how a question ends
pub data Outcome : Type 0 where
  go : Outcome
  declined : Outcome
  copied : Outcome
  end_of_input : Outcome

abbrev trust_help : Text → Text
trust_help what =
    codes "  t = trust "
    ++ (226 ∷ 128 ∷ 148 ∷ (codes " auto-" ++ (what ++ codes " this session\n")))

unfoldable pub write_help : Text
write_help =
    codes "  y = apply this change\n  n = skip this change\n  s = show full content again\n"
    ++ (trust_help (codes "approve all remaining changes")
        ++ codes "  c = copy content to clipboard\n")

unfoldable pub replace_help : Text
replace_help =
    codes "  y = apply this change\n  n = skip this change\n"
    ++ (trust_help (codes "approve all remaining changes")
        ++ codes "  c = copy new content to clipboard\n")

unfoldable pub run_help : Text
run_help =
    codes "  y = run this command\n  n = skip this command\n"
    ++ (trust_help (codes "run all remaining commands")
        ++ codes "  c = copy command to clipboard\n")

module _ (desk : Desk) where
  -- the clipboard, with a line if the pipe opens
  unfoldable pub to_clipboard : Text → ReplState desk → ReplState desk
  to_clipboard text s = elim (desk.copy s.state text) [
    | none ↦ s
    | some state ↦ print desk (record s { state = state }) (codes "[copied to clipboard]\n")
  ]

  -- the state behind an answer, with the lines that are left
  abbrev pub answered : Subject → Reply → List Text → Text → ReplState desk → ReplState desk
  answered subject reply lines prompt s =
      noted desk (record (prompted desk s prompt) { input = lines }) (asked subject reply)

  -- what an answer does; some ask again
  unfoldable pub on_write_reply :
      Text
      → Reply
      → (ReplState desk → Bool × ReplState desk)
      → ReplState desk
      → Bool × ReplState desk
  on_write_reply content yes_reply ask s = (true, s)
  on_write_reply content no_reply ask s = (false, s)
  on_write_reply content show_reply ask s = ask (print desk s (content ++ codes "\n"))
  on_write_reply content trust_reply ask s = (true, record s { trust = true })
  on_write_reply content copy_reply ask s = ask (to_clipboard content s)
  on_write_reply content help_reply ask s = ask (print desk s write_help)
  on_write_reply content other_reply ask s = ask s

  unfoldable pub ask_write : Text → Text → Text → List Text → ReplState desk → Bool × ReplState desk
  ask_write path content prompt [] s = (false, record (prompted desk s prompt) { input = [] })
  ask_write path content prompt (line ∷ lines) s =
      let reply = write_reply (answer_of desk s line) in
      on_write_reply content reply (ask_write path content prompt lines)
        (answered (to_write path) reply lines prompt s)

  unfoldable pub on_tool_reply :
      Text
      → Text
      → Reply
      → (ReplState desk → Outcome × ReplState desk)
      → ReplState desk
      → Outcome × ReplState desk
  on_tool_reply copy_text help yes_reply ask s = (go, s)
  on_tool_reply copy_text help trust_reply ask s = (go, record s { trust = true })
  on_tool_reply copy_text help copy_reply ask s = (copied, to_clipboard copy_text s)
  on_tool_reply copy_text help help_reply ask s = ask (print desk s help)
  on_tool_reply copy_text help _ ask s = (declined, print desk s (codes "[skipped]\n"))

  unfoldable pub ask_tool :
      Subject → Text → Text → Text → List Text → ReplState desk → Outcome × ReplState desk
  ask_tool subject copy_text help prompt [] s =
      (end_of_input, record (prompted desk s prompt) { input = [] })
  ask_tool subject copy_text help prompt (line ∷ lines) s =
      let reply = other_tool_reply (answer_of desk s line) in
      on_tool_reply copy_text help reply (ask_tool subject copy_text help prompt lines)
        (answered subject reply lines prompt s)
