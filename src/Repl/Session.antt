-- ===== src/Repl/Session.antt =====
-- That a whole session of the interactive mode does only what the user agreed to: `run_repl` of src/repl/repl.cpp.
use llama_cli.Base.Cases.{if-cases, option-cases}
use llama_cli.Provider.Message.{Message}
use llama_cli.Command.Input.{
  InputType, prompt, slash_command, exit_input, exec, exec_context, ParsedInput, parse_input,
}
use llama_cli.Orchestrator.Subagent.{parse_mention}
use llama_cli.Repl.Console.{Desk, ReplState}
use llama_cli.Repl.Chat.{Exchange}
use llama_cli.Repl.Reload.{load_chat_total}
use llama_cli.Repl.Context.{is_ok}
use llama_cli.Repl.ChatFiles.{handle_chat, chat_load, chat_path}
use llama_cli.Repl.Panel.{Outside, Panel, Shell, panel_of, put_back, first_word, behind_word}
use llama_cli.Repl.Commands.{dispatch_command}
use llama_cli.Repl.Consent.{Inv, same-Inv}
use llama_cli.Repl.Consented.{Ends, >>=-Ends}
use llama_cli.Repl.Turn.{send_prompt-Consented}
use llama_cli.Repl.Changes.{show_error-Inv}
use llama_cli.Repl.Loop.{
  launched, shown_result, run_exec, route_mention, dispatch_prompt, run_slash, dispatch_type,
  dispatch, run_line, run_repl,
}
use llama_cli.Base.{
  ℕ, zero, suc, ◌≡◌, refl, Bool, true, false, not, ◌&&◌, Option, none, some, List, [], ◌∷◌, ◌>>=◌,
  Text, codes, is_empty, text_eq,
}

-- A chain has a result if each of its links has one.
chain_total :
    {A B : Type 0} (o : Option A) (f : A → Option B)
    → (a : A) × (o ≡ some a)
    → ((a : A) → (b : B) × (f a ≡ some b))
    → (b : B) × ((o >>= f) ≡ some b)
chain_total (some x) f (a, e) h = h x
chain_total none f (a, e) h = absurd (cc)

module _ (desk : Desk) (outside : Outside desk)
    (styled : Text → Text → Panel desk → Panel desk) where
  chat_load_total :
      (name : Text) (p : Panel desk) → (q : Panel desk) × (chat_load desk outside name p ≡ some q)
  unfolding chat_load
  chat_load_total name p =
      option-cases (λ o. (q : Panel desk) × (o ≡ some q))
        (desk.read p.state (chat_path desk outside name)) (_, refl)
        (λ json. chain_total _ _ (load_chat_total json) (λ history. (_, refl)))

  abbrev HasResult : Option (Panel desk) → Type 0
  HasResult o = (q : Panel desk) × (o ≡ some q)

  handle_chat_total :
      (arg : Text) (p : Panel desk) → (q : Panel desk) × (handle_chat desk outside arg p ≡ some q)
  unfolding handle_chat
  handle_chat_total arg p =
      if-cases HasResult
        (text_eq (first_word arg) (codes "save") && not (is_empty (behind_word arg)))
        (λ _. (_, refl))
        (λ _.
          if-cases HasResult
            (text_eq (first_word arg) (codes "load") && not (is_empty (behind_word arg)))
            (λ _. chat_load_total (behind_word arg) _)
            (λ _.
              if-cases HasResult (text_eq (first_word arg) (codes "list")) (λ _. (_, refl))
                (λ _.
                  if-cases HasResult
                    (text_eq (first_word arg) (codes "delete") && not (is_empty (behind_word arg)))
                    (λ _. (_, refl)) (λ _. (_, refl)))))

  -- Every command ends.
  dispatch_command_total :
      (current command arg : Text) (p : Panel desk)
      → (q : Panel desk) × (dispatch_command desk outside styled current command arg p ≡ some q)
  unfolding dispatch_command
  dispatch_command_total current command arg p =
      if-cases HasResult (text_eq command (codes "clear")) (λ _. (_, refl))
        (λ _.
          if-cases HasResult (text_eq command (codes "chat")) (λ _. handle_chat_total arg p)
            (λ _. (_, refl)))

  module _ (chat : desk.State → Bool → List Message → Exchange desk.State)
      (invoke : desk.State → Text → Text → List Message → desk.State × Text) (current : Text)
      (start auto live : Bool) where
    abbrev Kept : ReplState desk → Type 0
    Kept s = Inv start auto desk live s

    -- the invariant of a session, whether its loop goes on or not
    abbrev pub Agreed : Shell desk × Bool → Type 0
    Agreed r = Kept r.0.repl

    run_exec-Inv :
        (cmd : Text) (add : Bool) (s : ReplState desk)
        → Kept s
        → Kept (run_exec desk outside styled chat invoke current cmd add s)
    unfolding run_exec shown_result
    run_exec-Inv cmd add s h =
        let r = (launched desk outside styled chat invoke current cmd s).1 in
        let told : Kept (shown_result desk outside styled chat invoke current cmd s) =
          if-cases Kept (not (is_ok r.exit_code) && not r.timed_out)
            (λ _.
              show_error-Inv start auto desk live _ _
                (same-Inv start auto desk live refl refl refl refl h))
            (λ _. same-Inv start auto desk live refl refl refl refl h) in
        if-cases Kept add (λ _. same-Inv start auto desk live refl refl refl refl told) (λ _. told)

    run_slash-Ends :
        (command arg : Text) (shell : Shell desk)
        → Kept shell.repl
        → Ends live
            (λ (r : Shell desk). Kept r.repl)
            (run_slash desk outside styled chat invoke current command arg shell)
    unfolding run_slash panel_of put_back
    run_slash-Ends command arg shell h =
        let (q, e) = dispatch_command_total current command arg (panel_of desk shell) in
        rw e (same-Inv start auto desk live refl refl refl refl h)

    dispatch_prompt-Ends :
        (fuel : ℕ) (line : Text) (shell : Shell desk)
        → Kept shell.repl
        → Ends live
            (λ (r : Shell desk). Kept r.repl)
            (dispatch_prompt desk outside styled chat invoke current fuel line shell)
    unfolding dispatch_prompt route_mention
    dispatch_prompt-Ends fuel line shell h =
        if-cases (Ends live (λ (r : Shell desk). Kept r.repl)) (parse_mention line).has_mention
          (λ _. same-Inv start auto desk live refl refl refl refl h)
          (λ _.
            >>=-Ends live Kept (λ (r : Shell desk). Kept r.repl) _ _
              (send_prompt-Consented start auto desk live chat fuel line shell.repl h) (λ s k. k))

    dispatch-Ends :
        (type : InputType) (fuel : ℕ) (line : Text) (input : ParsedInput) (shell : Shell desk)
        → Kept shell.repl
        → Ends live Agreed
            (dispatch_type desk outside styled chat invoke current type fuel line input shell)
    unfolding dispatch_type
    dispatch-Ends exit_input fuel line input shell h = h
    dispatch-Ends slash_command fuel line input shell h =
        >>=-Ends live (λ (r : Shell desk). Kept r.repl) Agreed _ _
          (run_slash-Ends input.command input.arg shell h) (λ r k. k)
    dispatch-Ends exec fuel line input shell h = run_exec-Inv input.arg false shell.repl h
    dispatch-Ends exec_context fuel line input shell h = run_exec-Inv input.arg true shell.repl h
    dispatch-Ends prompt fuel line input shell h =
        >>=-Ends live (λ (r : Shell desk). Kept r.repl) Agreed _ _
          (dispatch_prompt-Ends fuel line shell h) (λ r k. k)

    run_line-Ends :
        (fuel : ℕ) (lines : List Text) (shell : Shell desk)
        → Kept shell.repl
        → Ends live Agreed (run_line desk outside styled chat invoke current fuel lines shell)
    unfolding run_line dispatch
    run_line-Ends fuel [] shell h = h
    run_line-Ends fuel (line ∷ lines) shell h =
        let k = same-Inv start auto desk live refl refl refl refl h in
        if-cases (Ends live Agreed) (is_empty line) (λ _. k)
          (λ _. dispatch-Ends (parse_input line).type fuel line (parse_input line) _ k)

    -- However many lines the user types, a session of the interactive mode keeps the invariant of the trace: no
    -- command, no line that is run or routed to another agent and no prompt lets an answer of the model write,
    -- run or start anything that the user did not agree to before; and where answers are streamed each line ends.
    pub run_repl-Consented :
        (rounds fuel : ℕ) (shell : Shell desk)
        → Kept shell.repl
        → Ends live Agreed (run_repl desk outside styled chat invoke current rounds fuel shell)
    unfolding run_repl
    run_repl-Consented zero fuel shell h = h
    run_repl-Consented (suc rounds) fuel shell h =
        >>=-Ends live Agreed Agreed _ _ (run_line-Ends fuel shell.repl.input shell h) (λ r k.
          if-cases (Ends live Agreed) r.1 (λ _. run_repl-Consented rounds fuel r.0 k) (λ _. k))
