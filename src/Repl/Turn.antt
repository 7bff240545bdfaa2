-- ===== src/Repl/Turn.antt =====
-- A whole turn, `send_prompt` with its follow-ups: the user agrees to all it does, and it ends.
use llama_cli.Base.Cases.{if-cases, option-cases}
use llama_cli.Provider.Message.{Message}
use llama_cli.Annotation.Repaired.{fix_malformed_tags_total}
use llama_cli.Repl.Console.{Desk, ReplState}
use llama_cli.Repl.Prompt.{
  trim_front, assented_command, input_of, is_short, is_repeat, short_hint, repeat_hint,
}
use llama_cli.Repl.Consent.{Inv, same-Inv}
use llama_cli.Repl.Consented.{Ends, >>=-Ends, Answered, handle_response-Ends}
use llama_cli.Repl.Chat.{
  Exchange, show_tip, call_model, answered, follow_up, k_max_followups, with_prompt, take_back,
  on_answer, send_prompt,
}
use llama_cli.Base.{
  ℕ, zero, suc, ◌%◌, ◌≡◌, refl, inl, inr, Bool, true, false, not, ◌&&◌, ◌||◌, List, leb, ◌==◌,
  Option-cases, length, Text, is_empty,
}

module _ (start auto : Bool) (desk : Desk) (live : Bool)
    (chat : desk.State → Bool → List Message → Exchange desk.State) where
  abbrev Kept : ReplState desk → Type 0
  Kept s = Inv start auto desk live s

  abbrev same :
      {s t : ReplState desk}
      → t.trace ≡ s.trace
      → t.trust ≡ s.trust
      → t.cfg ≡ s.cfg
      → t.streaming ≡ s.streaming
      → Kept s
      → Kept t
  same = same-Inv start auto desk live

  show_tip-Inv : (s : ReplState desk) → Kept s → Kept (show_tip desk chat s)
  unfolding show_tip
  show_tip-Inv s h =
      if-cases Kept (not s.tips_enabled || s.count == 0) (λ _. h)
        (λ _.
          if-cases Kept (not (s.count % s.tips_interval == 0)) (λ _. h)
            (λ _. same refl refl refl refl h))

  call_model-Inv : (s : ReplState desk) → Kept s → Kept (call_model desk chat s).1
  unfolding call_model
  call_model-Inv s h = same refl refl refl refl h

  answered-Inv : (text : Text) (s : ReplState desk) → Kept s → Kept (answered desk chat text s)
  unfolding answered
  answered-Inv text s h = same refl refl refl refl h

  follow_up-Ends :
      (fuel rounds : ℕ) (needs : Bool) (s : ReplState desk)
      → Kept s
      → Ends live (Answered start auto desk live) (follow_up desk chat fuel rounds needs s)
  unfolding follow_up
  follow_up-Ends fuel zero needs s h = h
  follow_up-Ends fuel (suc rounds) false s h = h
  follow_up-Ends fuel (suc rounds) true s h =
      let h₁ = call_model-Inv s h in
      elim (Option-cases (call_model desk chat s).0.answer) [
        | inl e ↦ rw (e, follow_up) (same refl refl refl refl h₁)
        | inr (followup, e) ↦
            rw (e, follow_up)
              (>>=-Ends live (Answered start auto desk live) (Answered start auto desk live) _ _
                (handle_response-Ends start auto desk live fuel followup _
                  (answered-Inv followup _ h₁))
                (λ r k. follow_up-Ends fuel rounds r.0 r.1 k))
      ]

  input_of-Inv :
      (line trimmed : Text) (s : ReplState desk) → Kept s → Kept (input_of desk line trimmed s).1
  unfolding input_of
  input_of-Inv line trimmed s h = elim (Option-cases (assented_command trimmed s.history)) [
    | inl e ↦ rw (e, input_of) h
    | inr (cmd, e) ↦ rw (e, input_of) (same refl refl refl refl h)
  ]

  short_hint-Inv : (trimmed : Text) (s : ReplState desk) → Kept s → Kept (short_hint desk trimmed s)
  unfolding short_hint
  short_hint-Inv trimmed s h =
      if-cases Kept (is_short trimmed) (λ _. same refl refl refl refl h) (λ _. h)

  repeat_hint-Inv : (input : Text) (s : ReplState desk) → Kept s → Kept (repeat_hint desk input s)
  unfolding repeat_hint
  repeat_hint-Inv input s h =
      if-cases Kept (leb 2 (length s.history) && is_repeat s.history input)
        (λ _. same refl refl refl refl h) (λ _. h)

  on_answer-Ends :
      (fuel elapsed : ℕ) (text : Text) (s : ReplState desk)
      → Kept s
      → Ends live Kept (on_answer desk chat fuel elapsed text s)
  unfolding on_answer
  on_answer-Ends fuel elapsed text s h =
      let (response, e) = fix_malformed_tags_total text in
      rw e (
        >>=-Ends live (Answered start auto desk live) Kept _ _
          (handle_response-Ends start auto desk live fuel response _ (answered-Inv response s h))
          (λ r k.
            >>=-Ends live (Answered start auto desk live) Kept _ _
              (follow_up-Ends fuel k_max_followups r.0 _ (same refl refl refl refl k))
              (λ r₂ k₂.
                show_tip-Inv _ (if-cases Kept r₂.0 (λ _. same refl refl refl refl k₂) (λ _. k₂)))))

  -- A turn, with its follow-ups, keeps the invariant of the trace: each write, command and task comes after
  -- a yes to the question for it, or after an answer that trusts, or in a session that trusts from the
  -- start, or is a write where writes are confirmed automatically; and each write is to the file that was
  -- asked about, or to its backup. Where the answers are streamed the turn ends; where they are not, a loop
  -- that strips annotations may still run when the fuel is spent.
  pub send_prompt-Consented :
      (fuel : ℕ) (line : Text) (s : ReplState desk)
      → Kept s
      → Ends live Kept (send_prompt desk chat fuel line s)
  unfolding send_prompt with_prompt take_back
  send_prompt-Consented fuel line s h =
      let trimmed = trim_front line in
      let (input, s₁) = input_of desk line trimmed s in
      let s₂ = repeat_hint desk input (short_hint desk trimmed s₁) in
      let h₂ =
        repeat_hint-Inv input _ (short_hint-Inv trimmed s₁ (input_of-Inv line trimmed s h)) in
      let r = call_model desk chat (with_prompt desk chat input s₂) in
      let h₃ : Kept r.1 = call_model-Inv _ (same refl refl refl refl h₂) in
      if-cases (Ends live Kept) (is_empty trimmed) (λ _. same refl refl refl refl h)
        (λ _.
          option-cases (Ends live Kept) r.0.answer (same refl refl refl refl h₃)
            (λ text. on_answer-Ends fuel r.0.elapsed text r.1 h₃))
