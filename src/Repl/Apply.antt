-- ===== src/Repl/Apply.antt =====
-- src/repl/repl_annotations.cpp: `process_write`, `process_str_replace` and `confirm_exec`.
use llama_cli.Base.Words.{rfind}
use llama_cli.Annotation.Actions.{WriteAction, StrReplaceAction}
use llama_cli.Sync.Lines.{replace_first}
use llama_cli.Command.Exec.{cmd_exec}
use llama_cli.Repl.Console.{
  Desk, Subject, to_write, to_replace, to_run, wrote, ran, ReplState, print, noted, show_error,
  denied, report_denied,
}
use llama_cli.Repl.Diff.{show_diff}
use llama_cli.Repl.Confirm.{
  go, declined, copied, end_of_input, ask_write, ask_tool, replace_help, run_help,
}
use llama_cli.Base.{
  false, ◌+◌, Bool, true, Option, none, some, [], ◌++◌, if◌then◌else◌, drop, Text, codes,
}

-- the name behind the last slash, under `.tmp/backups`
unfoldable pub backup_path : Text → Text
backup_path path =
    codes ".tmp/backups/"
    ++ (elim (rfind b'/' path) [ none ↦ path | some slash ↦ drop (slash + 1) path ] ++ codes ".bak")

module _ (desk : Desk) where
  open desk use {read, write}

  -- a stream that is opened and written; `none` where it cannot be opened
  unfoldable pub write_file : Subject → Text → Text → ReplState desk → Option (ReplState desk)
  write_file subject path content s = elim (write s.state path content) [
    | none ↦ none
    | some state ↦ some (noted desk (record s { state = state }) (wrote subject path content))
  ]

  -- what is written if the stream opens
  unfoldable pub save_backup : Subject → Text → Text → ReplState desk → ReplState desk
  save_backup subject path existing s =
      let s₁ = record s { state = desk.make_backup_dir s.state } in
      elim (write_file subject (backup_path path) existing s₁) [ none ↦ s₁ | some s₂ ↦ s₂ ]

  abbrev pub quoted_line : Text → Text → Text
  quoted_line label path = label ++ (path ++ codes "]\n")

  -- the change itself, with the line that tells of it
  unfoldable pub save_file : Subject → Text → Text → Text → ReplState desk → ReplState desk
  save_file subject path content failed s = elim (write_file subject path content s) [
    | none ↦ show_error desk s (failed ++ path)
    | some s₁ ↦ print desk s₁ (quoted_line (codes "[wrote ") path)
  ]

  unfoldable pub preview_write : WriteAction → ReplState desk → ReplState desk
  preview_write action s = elim (read s.state action.path) [
    | none ↦ print desk s (action.content ++ codes "\n")
    | some existing ↦ show_diff desk existing action.content s
  ]

  unfoldable pub confirm_write : WriteAction → ReplState desk → Bool × ReplState desk
  confirm_write action s =
      if s.trust
      then (true, s)
      else (let s₁ = preview_write action s in
          if s.cfg.auto_confirm_write
          then (true, print desk s₁ (quoted_line (codes "[auto-written: ") action.path))
          else ask_write desk action.path action.content
              (codes "Write to " ++ (action.path ++ codes "? [y/n/s/t/c/?] ")) s₁.input s₁)

  -- a backup of the file that is there, then the new content with a newline
  unfoldable pub apply_write : WriteAction → ReplState desk → ReplState desk
  apply_write action s =
      let s₁ : ReplState desk = elim (read s.state action.path) [
        | none ↦ s
        | some existing ↦ save_backup (to_write action.path) action.path existing s
      ] in
      save_file (to_write action.path) action.path (action.content ++ codes "\n")
        (codes "Error: could not write to ") s₁

  unfoldable pub process_write : ReplState desk → WriteAction → ReplState desk
  process_write s action =
      if denied desk s (codes "write")
      then report_denied desk s.color s (codes "write")
      else (let (confirmed, s₁) = confirm_write action s in
          if confirmed then apply_write action s₁ else print desk s₁ (codes "[skipped]\n"))

  unfoldable pub apply_replace : Text → Text → Text → Text → ReplState desk → ReplState desk
  apply_replace path existing updated failed s =
      save_file (to_replace path) path updated failed
        (save_backup (to_replace path) path existing s)

  -- the question, behind the diff
  unfoldable pub confirm_replace : StrReplaceAction → Text → Text → ReplState desk → ReplState desk
  confirm_replace action existing updated s =
      let (outcome, s₁) =
        ask_tool desk (to_replace action.path) action.new_str replace_help
          (codes "Apply str_replace to " ++ (action.path ++ codes "? [y/n/t/c/?] ")) s.input s in
      elim outcome [
        | go ↦ apply_replace action.path existing updated (codes "Error: could not write to ") s₁
        | end_of_input ↦ print desk s₁ (codes "[skipped]\n")
        | declined ↦ s₁
        | copied ↦ s₁
      ]

  unfoldable pub process_str_replace : ReplState desk → StrReplaceAction → ReplState desk
  process_str_replace s action =
      if denied desk s (codes "str_replace")
      then report_denied desk s.color s (codes "str_replace")
      else elim (read s.state action.path) [
        | none ↦ show_error desk s (codes "str_replace: file not found: " ++ action.path)
        | some existing ↦ elim (replace_first existing action.old_str action.new_str) [
          | none ↦ show_error desk s (codes "str_replace: old string not found in " ++ action.path)
          | some updated ↦
              let s₁ = show_diff desk existing updated s in
              if s.trust
              then apply_replace action.path existing updated
                  (codes "str_replace: could not write to ") s₁
              else confirm_replace action existing updated s₁
        ]
      ]

  -- the command with its output, which is printed and returned
  unfoldable pub run_command : Text → ReplState desk → Text × ReplState desk
  run_command cmd s =
      let (state, process) = desk.launch s.state cmd in
      let output = (cmd_exec desk.to_string process s.cfg.exec_timeout s.cfg.max_output).output in
      (output, print desk (noted desk (record s { state = state }) (ran cmd)) output)

  unfoldable pub confirm_exec : Text → ReplState desk → Text × ReplState desk
  confirm_exec cmd s =
      if denied desk s (codes "exec")
      then ([], report_denied desk false s (codes "exec"))
      else if s.trust
      then run_command cmd s
      else (let (outcome, s₁) =
            ask_tool desk (to_run cmd) cmd run_help
              (codes "Run: " ++ (cmd ++ codes "? [y/n/t/c/?] ")) s.input s in
          elim outcome [
            | go ↦ run_command cmd s₁
            | declined ↦ ([], s₁)
            | copied ↦ ([], s₁)
            | end_of_input ↦ ([], s₁)
          ])
