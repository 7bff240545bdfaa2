-- ===== src/Repl/Chat.antt =====
-- src/repl/repl_chat.cpp: `send_prompt`, and `show_tip` of src/repl/repl_commands.cpp. The call of
-- the model, which runs on a thread until it ends or Ctrl-C, is a parameter.
use llama_cli.Base.Int.{pos}
use llama_cli.Provider.Message.{Message}
use llama_cli.Annotation.Repair.{fix_malformed_tags}
use llama_cli.Repl.Console.{Desk, ReplState, print, reset, newline}
use llama_cli.Repl.History.{trim_history}
use llama_cli.Repl.Prompt.{trim_front, input_of, short_hint, repeat_hint}
use llama_cli.Repl.Response.{handle_response}
use llama_cli.Base.{
  ℕ, zero, suc, ◌+◌, ◌/◌, ◌%◌, Bool, true, false, not, ◌||◌, Option, none, some, List, [], ◌∷◌,
  ◌++◌, leb, ◌==◌, if◌then◌else◌, ◌>>=◌, length, get_or, Text, codes, is_empty,
}

-- The state behind a call, what the stream showed, the milliseconds, and the answer, `none` where
-- Ctrl-C came first.
pub record Exchange (State : Type 0) : Type 0 where
  pub state : State
  pub shown : Text
  pub elapsed : ℕ
  pub answer : Option Text

unfoldable pub reminder_nudge : Text
reminder_nudge =
    codes "Reminder: be concise, only state facts about code you have read in this "
    ++ codes "session, no scores without criteria."

abbrev pub message : Text → Text → Message
message role content = record { role = role; content = content; rating = []; images = [] }

unfoldable pub tips : List Text
tips =
    codes "Tip: Use !!command to pipe shell output as LLM context"
    ∷ codes "Tip: /agent bofh for sarcastic responses, /agent architect for design help"
    ∷ codes "Tip: /compress to shrink long conversations without losing context"
    ∷ codes "Tip: /chat save <name> to bookmark a conversation for later"
    ∷ codes "Tip: /review to get AI code review of your git changes"
    ∷ codes "Tip: /set trace to see HTTP requests to Ollama"
    ∷ codes "Tip: /theme hacker for green-on-black terminal vibes"
    ∷ codes "Tip: /private to disable logging for sensitive conversations"
    ∷ codes "Tip: /update to check for new versions"
    ∷ codes "Tip: /help all to see every available command"
    ∷ []

-- the last message is taken away, `pop_back`
unfoldable pub pop_back : List Message → List Message
pop_back [] = []
pop_back (m ∷ []) = []
pop_back (m ∷ n ∷ history) = m ∷ pop_back (n ∷ history)

abbrev pub k_max_followups : ℕ
k_max_followups = 8

module _ (desk : Desk) (chat : desk.State → Bool → List Message → Exchange desk.State) where
  unfoldable pub show_tip : ReplState desk → ReplState desk
  show_tip s =
      if not s.tips_enabled || s.count == 0
      then s
      else if not (s.count % s.tips_interval == 0)
      then s
      else print desk s (
          newline
          ++ (get_or tips ((s.count / s.tips_interval) % 10) []
              ++ codes " (/set tips to disable)\n"))

  -- `chat_with_spinner`: a streamed answer that is not empty ends its line
  unfoldable pub call_model : ReplState desk → Exchange desk.State × ReplState desk
  call_model s =
      let e = chat s.state s.streaming s.history in
      let ends : Bool = elim e.answer [ none ↦ false | some text ↦ not (is_empty text) ] in
      (
        e,
        print desk (record s { state = e.state })
            (if s.streaming then e.shown ++ (if ends then newline else []) else []),
      )

  -- the answer in the history
  unfoldable pub answered : Text → ReplState desk → ReplState desk
  answered text s = record s {
    history = s.history ++ message (codes "assistant") text ∷ [];
    last_assistant_idx = pos (length s.history);
  }

  unfoldable pub stats_line : ℕ → Text → ReplState desk → Text
  stats_line elapsed response s =
      (if s.color then desk.theme.system else [])
      ++ ((if leb 1000 elapsed
            then codes "["
              ++ (desk.to_string (elapsed / 1000)
                  ++ (codes "." ++ (desk.to_string ((elapsed % 1000) / 100) ++ codes "s")))
            else codes "[" ++ (desk.to_string elapsed ++ codes "ms"))
          ++ ((32 ∷ 194 ∷ 183 ∷ 32 ∷ [])
              ++ (s.cfg.model
                  ++ ((32 ∷ 194 ∷ 183 ∷ 32 ∷ [])
                      ++ (desk.to_string (length response)
                          ++ (codes " chars]" ++ ((if s.color then reset else []) ++ newline)))))))

  abbrev interrupted_line : ReplState desk → ReplState desk
  interrupted_line s = print desk s (codes "\n[interrupted]\n")

  -- the loop of follow-ups, with the rounds that are left: whether one more was wanted
  unfoldable pub follow_up : ℕ → ℕ → Bool → ReplState desk → Option (Bool × ReplState desk)
  follow_up fuel zero needs_followup s = some (needs_followup, s)
  follow_up fuel (suc rounds) false s = some (false, s)
  follow_up fuel (suc rounds) true s =
      let (e, s₁) = call_model s in
      elim e.answer [
        | none ↦ some (true, interrupted_line s₁)
        | some followup ↦ handle_response desk fuel followup (answered followup s₁) >>= λ r.
            follow_up fuel rounds r.0 r.1
      ]

  -- the history that is sent: the reminder from the third prompt on, the prompt, the window
  unfoldable pub with_prompt : Text → ReplState desk → ReplState desk
  with_prompt input s =
      let reminded =
        if leb 2 s.count
        then s.history ++ message (codes "system") reminder_nudge ∷ []
        else s.history in
      record s {
        history = trim_history (reminded ++ message (codes "user") input ∷ []) s.cfg.max_history;
      }

  -- Ctrl-C takes the prompt back, and the reminder
  unfoldable pub take_back : ReplState desk → ReplState desk
  take_back s =
      let s₁ = interrupted_line s in
      let popped = pop_back s₁.history in
      record s₁ { history = if leb 2 s₁.count then pop_back popped else popped }

  -- everything behind an answer
  unfoldable pub on_answer : ℕ → ℕ → Text → ReplState desk → Option (ReplState desk)
  on_answer fuel elapsed text s = do
    response ← fix_malformed_tags text
    r ← handle_response desk fuel response (answered response s)
    let s₁ = record r.1 { count = r.1.count + 1 }
    r₂ ← follow_up fuel k_max_followups r.0 (print desk s₁ (stats_line elapsed response s₁))
    some (show_tip (if r₂.0 then print desk r₂.1 (codes "[follow-up limit reached]\n") else r₂.1))

  unfoldable pub send_prompt : ℕ → Text → ReplState desk → Option (ReplState desk)
  send_prompt fuel line s =
      let trimmed = trim_front line in
      if is_empty trimmed
      then some (
          print desk s
            (codes "[empty prompt " ++ (226 ∷ 128 ∷ 148 ∷ codes " type something or /help]\n")))
      else (let (input, s₁) = input_of desk line trimmed s in
          let s₂ = repeat_hint desk input (short_hint desk trimmed s₁) in
          let (e, s₃) = call_model (with_prompt input s₂) in
          elim e.answer [
            | none ↦ some (take_back s₃)
            | some text ↦ on_answer fuel e.elapsed text s₃
          ])
