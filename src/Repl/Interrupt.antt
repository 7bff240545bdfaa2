-- ===== src/Repl/Interrupt.antt =====
-- Ctrl-C during the first call of `send_prompt` in src/repl/repl_chat.cpp.
use llama_cli.Base.Cases.{if-cases}
use llama_cli.Base.Int.{pos}
use llama_cli.Provider.Message.{Message}
use llama_cli.Repl.Console.{Desk, ReplState}
use llama_cli.Repl.History.{trim_history}
use llama_cli.Repl.Prompt.{
  trim_front, assented_command, input_of, is_short, is_repeat, short_hint, repeat_hint,
}
use llama_cli.Repl.Chat.{Exchange, call_model, pop_back, with_prompt, take_back, send_prompt}
use llama_cli.Base.{
  ℕ, ◌≡◌, refl, ap, ◌∙◌, inl, inr, Bool, ◌&&◌, Option, none, some, List, [], ◌∷◌, ◌++◌, leb,
  Bool-cases, Option-cases, length, Text, is_empty,
}

pop_back-append : (history : List Message) (m : Message) → pop_back (history ++ m ∷ []) ≡ history
unfolding pop_back
pop_back-append [] m = refl
pop_back-append (n ∷ []) m = refl
pop_back-append (n ∷ k ∷ history) m = ap (◌∷◌ n) (pop_back-append (k ∷ history) m)

module _ (desk : Desk) (chat : desk.State → Bool → List Message → Exchange desk.State) where
  -- what a turn that does not happen leaves alone
  abbrev pub Unsent : ReplState desk → ReplState desk → Type 0
  Unsent s t =
      (t.history ≡ s.history)
      × (t.count ≡ s.count)
      × (t.trace ≡ s.trace)
      × (t.cfg ≡ s.cfg)
      × (t.state ≡ s.state)
      × (t.streaming ≡ s.streaming)

  input_of-Unsent :
      (line trimmed : Text) (s : ReplState desk) → Unsent s (input_of desk line trimmed s).1
  unfolding input_of
  input_of-Unsent line trimmed s = elim (Option-cases (assented_command trimmed s.history)) [
    | inl e ↦ rw (e, input_of) (refl, refl, refl, refl, refl, refl)
    | inr (cmd, e) ↦ rw (e, input_of) (refl, refl, refl, refl, refl, refl)
  ]

  short_hint-Unsent : (trimmed : Text) (s : ReplState desk) → Unsent s (short_hint desk trimmed s)
  unfolding short_hint
  short_hint-Unsent trimmed s =
      if-cases (Unsent s) (is_short trimmed) (λ _. (refl, refl, refl, refl, refl, refl))
        (λ _. (refl, refl, refl, refl, refl, refl))

  repeat_hint-Unsent : (input : Text) (s : ReplState desk) → Unsent s (repeat_hint desk input s)
  unfolding repeat_hint
  repeat_hint-Unsent input s =
      if-cases (Unsent s) (leb 2 (length s.history) && is_repeat s.history input)
        (λ _. (refl, refl, refl, refl, refl, refl)) (λ _. (refl, refl, refl, refl, refl, refl))

  -- With an unbounded history the prompt and the reminder are taken back.
  take_back-with_prompt :
      (input : Text) (s : ReplState desk)
      → s.cfg.max_history ≡ pos 0
      → (let t = with_prompt desk chat input s in (take_back desk chat t).history ≡ s.history)
  unfolding with_prompt take_back trim_history
  take_back-with_prompt input s e = elim (Bool-cases (leb 2 s.count)) [
    | inl b ↦ rw (e, b) (ap pop_back (pop_back-append _ _) ∙ pop_back-append s.history _)
    | inr b ↦ rw (e, b) (pop_back-append s.history _)
  ]

  then_Unsent : (s t u : ReplState desk) → Unsent s t → Unsent t u → Unsent s u
  then_Unsent s t u (a, b, c, d, e, f) (a', b', c', d', e', f') =
      (a' ∙ a, b' ∙ b, c' ∙ c, d' ∙ d, e' ∙ e, f' ∙ f)

  -- Where the history is not bounded, a prompt that Ctrl-C interrupts is as if it had not been sent: the
  -- history, the count and what was done are as before, also where the reminder had been added.
  pub send_prompt_interrupted :
      (fuel : ℕ) (line : Text) (s : ReplState desk)
      → ((history : List Message) → (chat s.state s.streaming history).answer ≡ none)
      → s.cfg.max_history ≡ pos 0
      → (t : ReplState desk) × (send_prompt desk chat fuel line s ≡ some t)
        × (t.history ≡ s.history)
        × (t.count ≡ s.count)
        × (t.trace ≡ s.trace)
  unfolding send_prompt call_model with_prompt take_back
  send_prompt_interrupted fuel line s never unbounded =
      let trimmed = trim_front line in
      let (input, s₁) = input_of desk line trimmed s in
      let s₂ = repeat_hint desk input (short_hint desk trimmed s₁) in
      let (eh, ec, et, ef, es, em) = then_Unsent s s₁ s₂ (input_of-Unsent line trimmed s) (
        then_Unsent s₁ (short_hint desk trimmed s₁) s₂ (short_hint-Unsent trimmed s₁)
          (repeat_hint-Unsent input _)) in
      let AsBefore : Option (ReplState desk) → Type 0 = λ o.
        (t : ReplState desk) × (o ≡ some t)
        × (t.history ≡ s.history)
        × (t.count ≡ s.count)
        × (t.trace ≡ s.trace) in
      let no_answer : (call_model desk chat (with_prompt desk chat input s₂)).0.answer ≡ none =
        rw (es, em) (never _) in
      if-cases AsBefore (is_empty trimmed) (λ _. (_, refl, refl, refl, refl))
        (λ _. rw no_answer (
          _,
          refl,
          take_back-with_prompt input s₂ (ap (λ c. c.max_history) ef ∙ unbounded) ∙ eh,
          ec,
          et,
        ))
