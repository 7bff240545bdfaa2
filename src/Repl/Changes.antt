-- ===== src/Repl/Changes.antt =====
-- That changes and commands are agreed to: `process_write`, `process_str_replace` and `confirm_exec`
-- keep the invariant of the trace.
use llama_cli.Base.Cases.{if-cases, option-cases}
use llama_cli.Annotation.Actions.{WriteAction, StrReplaceAction}
use llama_cli.Sync.Lines.{replace_first}
use llama_cli.Agent.Config.{find_agent_config}
use llama_cli.Repl.Console.{
  Desk, Subject, to_write, to_replace, to_run, wrote, ran, ReplState, noted, show_error, denied,
  report_denied,
}
use llama_cli.Repl.Diff.{show_diff}
use llama_cli.Repl.Confirm.{Outcome, go, declined, copied, end_of_input, ask_tool, replace_help}
use llama_cli.Repl.Apply.{
  backup_path, write_file, save_backup, save_file, preview_write, confirm_write, apply_write,
  process_write, apply_replace, confirm_replace, process_str_replace, run_command, confirm_exec,
}
use llama_cli.Repl.Consent.{
  Permitted, Covers, Inv, same-Inv, noted-Inv, trust-Permitted, Asked, is_go, ask_write-Asked,
  ask_tool-Asked, print-Inv,
}
use llama_cli.Base.{◌≡◌, refl, sym, ◌∙◌, inl, inr, Bool, true, ◌++◌, Option-cases, Text, codes}

outcome-cases {ℓ ℓ'} :
    {A : Type ℓ} (P : A → Type ℓ') (o : Outcome) {w x y z : A}
    → (is_go o ≡ true → P w)
    → P x
    → P y
    → P z
    → P (elim o [ go ↦ w | declined ↦ x | copied ↦ y | end_of_input ↦ z ])
outcome-cases P go f p q r = f refl
outcome-cases P declined f p q r = p
outcome-cases P copied f p q r = q
outcome-cases P end_of_input f p q r = r

module _ (start auto : Bool) (desk : Desk) (live : Bool) where
  abbrev Kept : ReplState desk → Type 0
  Kept s = Inv start auto desk live s

  abbrev Allowed : Subject → ReplState desk → Type 0
  Allowed subject s = Permitted start auto subject s.trace

  pub show_error-Inv : (s : ReplState desk) (msg : Text) → Kept s → Kept (show_error desk s msg)
  unfolding show_error
  show_error-Inv s msg h = same-Inv start auto desk live refl refl refl refl h

  report_denied-Inv :
      (color : Bool) (s : ReplState desk) (tool : Text)
      → Kept s
      → Kept (report_denied desk color s tool)
  unfolding report_denied
  report_denied-Inv color s tool h =
      option-cases Kept (find_agent_config s.agents s.active_agent) h
        (λ agent. same-Inv start auto desk live refl refl refl refl h)

  show_diff-Inv : (old new : Text) (s : ReplState desk) → Kept s → Kept (show_diff desk old new s)
  unfolding show_diff
  show_diff-Inv old new s h = same-Inv start auto desk live refl refl refl refl h

  preview_write-Inv :
      (action : WriteAction) (s : ReplState desk) → Kept s → Kept (preview_write desk action s)
  unfolding preview_write
  preview_write-Inv action s h = elim (Option-cases (desk.read s.state action.path)) [
    | inl e ↦ rw (e, preview_write) (print-Inv start auto desk live s _ h)
    | inr (existing, e) ↦ rw (e, preview_write) (show_diff-Inv existing action.content s h)
  ]

  -- a permitted change of a covered file is permitted still for the next
  abbrev Changed : Subject → ReplState desk → Type 0
  Changed subject s = Kept s × Allowed subject s

  noted-Changed :
      (subject : Subject) (path content : Text) (s : ReplState desk)
      → Covers subject path
      → Changed subject s
      → Changed subject (noted desk s (wrote subject path content))
  noted-Changed subject path content s covers (h, p) =
      (noted-Inv start auto desk live s (wrote subject path content) (p, covers, h.consented) h, p)

  save_backup-Changed :
      (subject : Subject) (path existing : Text) (s : ReplState desk)
      → Covers subject (backup_path path)
      → Changed subject s
      → Changed subject (save_backup desk subject path existing s)
  unfolding save_backup write_file
  save_backup-Changed subject path existing s covers (h, p) =
      elim (Option-cases (desk.write (desk.make_backup_dir s.state) (backup_path path) existing)) [
        | inl e ↦
            rw (e, save_backup, write_file) (same-Inv start auto desk live refl refl refl refl h, p)
        | inr (state, e) ↦
            rw (e, save_backup, write_file)
              (noted-Changed subject (backup_path path) existing (record s { state = state }) covers
                (same-Inv start auto desk live refl refl refl refl h, p))
      ]

  save_file-Inv :
      (subject : Subject) (path content failed : Text) (s : ReplState desk)
      → Covers subject path
      → Changed subject s
      → Kept (save_file desk subject path content failed s)
  unfolding save_file write_file
  save_file-Inv subject path content failed s covers (h, p) =
      elim (Option-cases (desk.write s.state path content)) [
        | inl e ↦ rw (e, save_file, write_file) (show_error-Inv s _ h)
        | inr (state, e) ↦
            rw (e, save_file, write_file)
              (same-Inv start auto desk live refl refl refl refl
                (noted-Changed subject path content (record s { state = state }) covers
                  (same-Inv start auto desk live refl refl refl refl h, p)).0)
      ]

  apply_write-Inv :
      (action : WriteAction) (s : ReplState desk)
      → Changed (to_write action.path) s
      → Kept (apply_write desk action s)
  unfolding apply_write
  apply_write-Inv action s changed = elim (Option-cases (desk.read s.state action.path)) [
    | inl e ↦
        rw (e, apply_write)
          (save_file-Inv (to_write action.path) action.path _ _ s (inl refl) changed)
    | inr (existing, e) ↦
        rw (e, apply_write)
          (save_file-Inv (to_write action.path) action.path _ _ _ (inl refl)
            (save_backup-Changed (to_write action.path) action.path existing s (inr refl) changed))
  ]

  confirm_write-Asked :
      (action : WriteAction) (s : ReplState desk)
      → Kept s
      → (let r = confirm_write desk action s in
          Asked start auto desk live (to_write action.path) r.0 r.1)
  unfolding confirm_write
  confirm_write-Asked action s h =
      let P : Bool × ReplState desk → Type 0 =
        λ r. Asked start auto desk live (to_write action.path) r.0 r.1 in
      let s₁ = preview_write desk action s in
      let h₁ = preview_write-Inv action s h in
      if-cases P s.trust (λ e. (h, λ _. trust-Permitted start auto desk live s _ h e))
        (λ _.
          if-cases P s.cfg.auto_confirm_write
            (λ a. (
              print-Inv start auto desk live s₁ _ h₁,
              λ _. inr (inr (inr (sym h.confirming ∙ a, tt))),
            ))
            (λ _. ask_write-Asked start auto desk live action.path action.content _ s₁.input s₁ h₁))

  pub process_write-Inv :
      (s : ReplState desk) (action : WriteAction) → Kept s → Kept (process_write desk s action)
  unfolding process_write
  process_write-Inv s action h =
      if-cases Kept (denied desk s (codes "write")) (λ _. report_denied-Inv _ s _ h)
        (λ _.
          let (h₁, permitted) = confirm_write-Asked action s h in
          if-cases Kept (confirm_write desk action s).0
            (λ c. apply_write-Inv action _ (h₁, permitted c))
            (λ _. print-Inv start auto desk live _ _ h₁))

  apply_replace-Inv :
      (path existing updated failed : Text) (s : ReplState desk)
      → Changed (to_replace path) s
      → Kept (apply_replace desk path existing updated failed s)
  unfolding apply_replace
  apply_replace-Inv path existing updated failed s changed =
      save_file-Inv (to_replace path) path updated failed _ (inl refl)
        (save_backup-Changed (to_replace path) path existing s (inr refl) changed)

  confirm_replace-Inv :
      (action : StrReplaceAction) (existing updated : Text) (s : ReplState desk)
      → Kept s
      → Kept (confirm_replace desk action existing updated s)
  unfolding confirm_replace
  confirm_replace-Inv action existing updated s h =
      let r =
        ask_tool desk (to_replace action.path) action.new_str replace_help
          (codes "Apply str_replace to " ++ (action.path ++ codes "? [y/n/t/c/?] ")) s.input s in
      let (k, permitted) =
        ask_tool-Asked start auto desk live (to_replace action.path) action.new_str replace_help
          (codes "Apply str_replace to " ++ (action.path ++ codes "? [y/n/t/c/?] ")) s.input s h in
      outcome-cases Kept r.0
        (λ e. apply_replace-Inv action.path existing updated _ r.1 (k, permitted e)) k k
        (print-Inv start auto desk live r.1 _ k)

  pub process_str_replace-Inv :
      (s : ReplState desk) (action : StrReplaceAction)
      → Kept s
      → Kept (process_str_replace desk s action)
  unfolding process_str_replace show_diff
  process_str_replace-Inv s action h =
      if-cases Kept (denied desk s (codes "str_replace")) (λ _. report_denied-Inv _ s _ h)
        (λ _. option-cases Kept (desk.read s.state action.path) (show_error-Inv s _ h) (λ existing.
          option-cases Kept (replace_first existing action.old_str action.new_str)
            (show_error-Inv s _ h)
            (λ updated.
              let s₁ = show_diff desk existing updated s in
              let h₁ = show_diff-Inv existing updated s h in
              if-cases Kept s.trust
                (λ e.
                  apply_replace-Inv action.path existing updated _ s₁
                    (h₁, trust-Permitted start auto desk live s₁ _ h₁ e))
                (λ _. confirm_replace-Inv action existing updated s₁ h₁))))

  run_command-Inv :
      (cmd : Text) (s : ReplState desk) → Changed (to_run cmd) s → Kept (run_command desk cmd s).1
  unfolding run_command
  run_command-Inv cmd s (h, p) =
      same-Inv start auto desk live refl refl refl refl
        (noted-Inv start auto desk live s (ran cmd) (p, h.consented) h)

  pub confirm_exec-Inv :
      (cmd : Text) (s : ReplState desk) → Kept s → Kept (confirm_exec desk cmd s).1
  unfolding confirm_exec
  confirm_exec-Inv cmd s h =
      let P : Text × ReplState desk → Type 0 = λ r. Kept r.1 in
      if-cases P (denied desk s (codes "exec")) (λ _. report_denied-Inv _ s _ h)
        (λ _.
          if-cases P s.trust
            (λ e. run_command-Inv cmd s (h, trust-Permitted start auto desk live s _ h e))
            (λ _.
              let (k, permitted) =
                ask_tool-Asked start auto desk live (to_run cmd) cmd _ _ s.input s h in
              outcome-cases P _ (λ e. run_command-Inv cmd _ (k, permitted e)) k k k))
