-- ===== src/Repl/Review.antt =====
-- src/repl/repl_commands.cpp: `/review` and `/tasks`.
use llama_cli.Command.Exec.{cmd_exec}
use llama_cli.Repl.Console.{Desk, reset}
use llama_cli.Repl.Chat.{message}
use llama_cli.Repl.Panel.{Outside, running, done, failed, Panel, say, remembers, dash}
use llama_cli.Base.{
  ℕ, suc, not, ◌&&◌, List, [], ◌∷◌, ◌++◌, ltb, if◌then◌else◌, length, take, Text, codes, is_empty,
  text_eq,
}
use llama_cli.Repl.Context.{is_ok}

unfoldable pub review_prompt : Text
review_prompt =
    codes "You are a senior code reviewer. Analyze this git diff and provide a concise review.\n"
    ++ (codes "Focus on: bugs, security issues, performance problems, and readability.\n"
        ++ (codes
              "Format: use markdown with ## sections for Summary, Issues (if any), and Suggestions.\nBe specific "
            ++ (226
                ∷ 128
                ∷ 148
                ∷ (codes " reference file names and line numbers from the diff.\n"
                    ++ codes "If the code looks good, say so briefly."))))

-- the command of git, and what it is about
unfoldable pub review_of : Text → Text × Text
review_of arg =
    if text_eq arg (codes "staged")
    then (codes "git diff --cached", codes "staged changes")
    else if text_eq arg (codes "branch")
    then (codes "git diff main...HEAD", codes "branch changes vs main")
    else if is_empty arg
    then (codes "git diff", codes "uncommitted changes")
    else (codes "git diff -- " ++ arg, arg)

module _ (desk : Desk) (outside : Outside desk) where
  open desk use {to_string, theme}
  open outside use {ask}

  unfoldable pub review_diff : Text → Panel desk → Panel desk
  review_diff diff p =
      let shown = take 8000 diff in
      let q =
        if ltb 8000 (length diff)
        then say desk p (
            codes "[diff truncated to 8000 chars"
            ++ (dash ++ codes "use /review <file> for focused review]\n"))
        else p in
      let (state, response) = ask q.state (
        message (codes "system") review_prompt
        ∷ message (codes "user")
            (codes "Review this diff:\n\n```diff\n" ++ (shown ++ codes "\n```"))
        ∷ []) in
      let r = record q { state = state } in
      if is_empty response
      then r
      else say desk r (desk.render response (p.color && p.markdown) ++ codes "\n")

  unfoldable pub handle_review : Text → Panel desk → Panel desk
  handle_review arg p =
      let (git_cmd, label) = review_of arg in
      let (state, process) = desk.launch p.state git_cmd in
      let diff = cmd_exec to_string process p.exec_timeout 50000 in
      let q = record (say desk p (codes "[reviewing " ++ (label ++ codes "...]\n"))) {
        state = state;
      } in
      if not (is_empty diff.output)
      then review_diff diff.output q
      else if is_ok diff.exit_code
      then say desk q (codes "[no changes to review]\n")
      else say desk q
          (codes "[error: git diff failed" ++ (dash ++ codes "are you in a git repo?]\n"))

  abbrev pub task_line : Text → Text → Text → Text
  task_line style label model =
      style ++ (codes "[" ++ (label ++ (codes ": " ++ (model ++ (codes "] " ++ reset)))))

  -- One task; the counts are those of the tasks that are done and that run.
  unfoldable pub poll_task : Text × Text → Panel desk × ℕ × ℕ → Panel desk × ℕ × ℕ
  poll_task (model, prompt) (p, finished, left) = elim (outside.poll p.state (model, prompt)) [
    | running ↦ (
      say desk (record p { tasks = p.tasks ++ (model, prompt) ∷ [] })
          (task_line theme.warning (codes "running") model ++ (take 60 prompt ++ codes "...\n")),
      finished,
      suc left,
    )
    | done result ↦ (
      remembers desk
          (say desk p (
            task_line theme.info (codes "done") model
            ++ (take 60 prompt
                ++ (codes "\n" ++ (desk.render result (p.color && p.markdown) ++ codes "\n")))))
          (codes "user")
          (codes "[background task result from " ++ (model ++ (codes "]\n" ++ result))),
      suc finished,
      left,
    )
    | failed what ↦ (
      say desk p (task_line theme.error (codes "failed") model ++ (what ++ codes "\n")),
      suc finished,
      left,
    )
  ]

  unfoldable pub poll_tasks : List (Text × Text) → Panel desk × ℕ × ℕ → Panel desk × ℕ × ℕ
  poll_tasks [] counts = counts
  poll_tasks (task ∷ tasks) counts = poll_tasks tasks (poll_task task counts)

  unfoldable pub handle_tasks : Panel desk → Panel desk
  handle_tasks p =
      let (q, finished, left) = poll_tasks p.tasks (record p { tasks = [] }, 0, 0) in
      let r =
        if ltb 0 finished
        then say desk q (to_string finished ++ codes " task(s) completed, added to context.\n")
        else q in
      if is_empty p.tasks
      then say desk p (codes "[no background tasks]\n")
      else if ltb 0 left
      then say desk r (to_string left ++ codes " task(s) still running.\n")
      else r
