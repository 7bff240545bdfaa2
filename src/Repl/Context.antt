-- ===== src/Repl/Context.antt =====
-- src/repl/repl_commands.cpp: the commands that change the conversation: `/clear`, `/copy`, `/paste`, `/image`,
-- `/compress` and `/usage`.
use llama_cli.Base.Int.{ℤ, pos, negsuc}
use llama_cli.Provider.Message.{Message}
use llama_cli.Repl.Console.{Desk}
use llama_cli.Repl.Chat.{message}
use llama_cli.Repl.Base64.{base64}
use llama_cli.Repl.Notes.{is_assistant}
use llama_cli.Repl.Panel.{Outside, Panel, say, remembers, dash}
use llama_cli.Base.{
  ℕ, ◌+◌, ◌-◌, ◌/◌, Bool, false, Option, none, some, List, [], ◌∷◌, ◌++◌, leb, ◌==◌, if◌then◌else◌,
  length, get_elem?, take, Text, codes, is_empty, text_eq,
}

-- the system's message at the front, if there is one
unfoldable pub front_system : List Message → List Message
front_system [] = []
front_system (m ∷ history) = if text_eq m.role (codes "system") then m ∷ [] else []

-- the text that is summarized
unfoldable pub conversation : List Message → Text
conversation [] = []
conversation (m ∷ history) =
    (if text_eq m.role (codes "system")
      then []
      else m.role ++ (codes ": " ++ (take 200 m.content ++ codes "\n")))
    ++ conversation history

unfoldable pub tokens_of : Text → List Message → ℕ
tokens_of role [] = 0
tokens_of role (m ∷ history) =
    (if text_eq m.role role then length m.content / 4 else 0) + tokens_of role history

unfoldable pub calls_of : List Message → ℕ
calls_of [] = 0
calls_of (m ∷ history) = (if is_assistant m then 1 else 0) + calls_of history

unfoldable pub summary_prompt : Text
summary_prompt =
    codes "Summarize this conversation in 2-4 bullet points. "
    ++ (codes "Include: topics discussed, decisions made, and any pending items. "
        ++ codes "Be concise. Respond in the same language as the conversation.")

abbrev pub is_ok : ℤ → Bool
is_ok (pos n) = n == 0
is_ok (negsuc n) = false

module _ (desk : Desk) (outside : Outside desk) where
  open desk use {read, copy, to_string}
  open outside use {ask}

  unfoldable pub clear_history : Panel desk → Panel desk
  clear_history p = say desk (record p { history = [] }) (codes "[history cleared]\n")

  -- the last answer, if its index is one of the conversation
  unfoldable pub last_answer : ℤ → List Message → Option Message
  last_answer (pos i) history = get_elem? history i
  last_answer (negsuc n) history = none

  unfoldable pub handle_copy : Panel desk → Panel desk
  handle_copy p = elim (last_answer p.last_assistant_idx p.history) [
    | none ↦ say desk p (codes "[no response to copy]\n")
    | some m ↦ elim (copy p.state m.content) [
      | none ↦
          say desk p
            (codes "[clipboard not available" ++ (dash ++ codes "install pbcopy or xclip]\n"))
      | some state ↦
          say desk (record p { state = state })
            (codes "[copied " ++ (to_string (length m.content) ++ codes " chars to clipboard]\n"))
    ]
  ]

  unfoldable pub handle_paste : Panel desk → Panel desk
  handle_paste p = elim (outside.paste p.state) [
    | none ↦
        say desk p
          (codes "[clipboard not available" ++ (dash ++ codes "install pbpaste or xclip]\n"))
    | some content ↦
        if is_empty content
        then say desk p (codes "[clipboard is empty]\n")
        else say desk (remembers desk p (codes "user") (codes "[clipboard]\n" ++ content))
            (codes "[pasted " ++ (to_string (length content) ++ codes " chars as context]\n"))
  ]

  unfoldable pub handle_image : Text → Panel desk → Panel desk
  handle_image arg p =
      if is_empty arg
      then say desk p (
          codes "Usage: /image <path>"
          ++ (dash ++ codes "attach image for next prompt (vision models)\n"))
      else elim (read p.state arg) [
        | none ↦ say desk p (codes "[error: cannot read " ++ (arg ++ codes "]\n"))
        | some image ↦
            let attached =
              record (message (codes "user") (codes "[image: " ++ (arg ++ codes "]"))) {
                images = base64 image ∷ [];
              } in
            say desk (record p { history = p.history ++ attached ∷ [] })
              (codes "[image attached: "
                ++ (arg
                    ++ (codes " ("
                        ++ (to_string (length image / 1024)
                            ++ (codes "KB)" ++ (dash ++ codes "ask about it now]\n"))))))
      ]

  unfoldable pub compressed : Text → List Message → List Message
  compressed summary history =
      front_system history
      ++ message (codes "assistant") (codes "Previous conversation summary:\n" ++ summary) ∷ []

  unfoldable pub handle_compress : Panel desk → Panel desk
  handle_compress p =
      let (state, summary) = ask p.state (
        message (codes "system") summary_prompt
        ∷ message (codes "user") (conversation p.history)
        ∷ []) in
      let q = record (say desk p (codes "Compressing conversation...\n")) { state = state } in
      let shorter = compressed summary p.history in
      if leb (length p.history) 2
      then say desk p (codes "[nothing to compress" ++ (dash ++ codes "conversation too short]\n"))
      else if is_empty summary
      then say desk q (codes "[compress failed" ++ (dash ++ codes "model did not respond]\n"))
      else say desk (record q { history = shorter })
          (codes "\n[compressed: "
            ++ (to_string (length p.history - length shorter)
                ++ (codes " messages " ++ (226 ∷ 134 ∷ 146 ∷ codes " summary]\n"))))

  unfoldable pub handle_usage : Panel desk → Panel desk
  handle_usage p =
      let c = p.extras.config in
      say desk p (
        codes "Session usage (estimated):\n  Messages: "
        ++ (to_string (length p.history)
            ++ (codes "\n  Prompt tokens: ~"
                ++ (to_string (tokens_of (codes "user") p.history)
                    ++ (codes "\n  Completion tokens: ~"
                        ++ (to_string (tokens_of (codes "assistant") p.history)
                            ++ (codes "\n  LLM calls: "
                                ++ (to_string (calls_of p.history)
                                    ++ (codes "\n  Provider: "
                                        ++ (c.provider
                                            ++ (codes "\n  Model: "
                                                ++ (c.model
                                                    ++ (codes "\n  Host: "
                                                        ++ (c.host
                                                            ++ (codes ":"
                                                            ++ (c.port ++ codes "\n"))))))))))))))))
