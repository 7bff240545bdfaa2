-- ===== src/Sync/Process.antt =====
-- src/sync/sync_annotations.cpp: `process_sync_annotations`. The file system and the shell are the
-- system's: `read` and `write` are an opened stream read to its end and a truncated one written,
-- `run` is the output of `cmd_exec` under its timeout and size limit. The trace is no state of the
-- program: it records each access to the system, with the system's state before it.
use llama_cli.Base.Words.{getlines}
use llama_cli.Annotation.Actions.{
  WriteAction, StrReplaceAction, ReadAction, AddLineAction, DeleteLineAction,
}
use llama_cli.Annotation.Parse.{
  parse_write_annotations, parse_str_replace_annotations, parse_read_annotations,
  parse_add_line_annotations, parse_delete_line_annotations,
}
use llama_cli.Sync.Caps.{has_cap}
use llama_cli.Sync.ReadOnly.{is_read_only}
use llama_cli.Sync.Paths.{path_allowed}
use llama_cli.Sync.Tags.{parse_exec_tags}
use llama_cli.Sync.Lines.{replace_first, insert_line, erase_line, unlines}
use llama_cli.Base.{
  ℕ, Bool, not, ◌&&◌, ◌||◌, Option, none, some, List, [], ◌∷◌, ◌++◌, if◌then◌else◌, ◌>>=◌, Text,
  codes,
}

pub record System : Type 1 where
  pub State : Type 0
  pub realpath : State → Text → Option Text
  pub read : State → Text → Option Text
  pub write : State → Text → Text → Option State
  pub run : State → Text → ℕ → ℕ → State × Text

pub record SyncConfig : Type 0 where
  pub capabilities : Text
  pub sandbox : Text
  pub exec_timeout : ℕ
  pub max_output : ℕ

-- "[error: write blocked — outside sandbox: "; the dash is three bytes
abbrev write_blocked : Text
write_blocked = codes "[error: write blocked " ++ (226 ∷ 128 ∷ 148 ∷ codes " outside sandbox: ")

abbrev pub closed : Text → Text → Text
closed label subject = label ++ (subject ++ codes "]\n")

module _ (system : System) where
  open system use {State, realpath, read, write, run}

  pub data Access : Type 0 where
    read_file : State → Text → Access
    write_file : State → Text → Text → Access
    run_command : State → Text → Access

  pub record Sync : Type 0 where
    pub state : State
    pub followup : Text
    pub err : Text
    pub trace : List Access

  abbrev reply : Sync → Text → Sync
  reply s text = record s { followup = s.followup ++ text }

  abbrev report : Sync → Text → Sync
  report s text = record s { err = s.err ++ text }

  abbrev allowed : SyncConfig → Sync → Text → Bool
  allowed cfg s path = path_allowed (realpath s.state) path cfg.sandbox

  abbrev noted : Sync → Access → Sync
  noted s a = record s { trace = a ∷ s.trace }

  unfoldable pub for_each {ℓ} : {A : Type ℓ} → (Sync → A → Sync) → List A → Sync → Sync
  for_each step [] s = s
  for_each step (a ∷ actions) s = for_each step actions (step s a)

  unfoldable pub sync_read : SyncConfig → Sync → ReadAction → Sync
  sync_read cfg s action =
      if not (allowed cfg s action.path)
      then report s (closed (codes "[blocked: read outside sandbox: ") action.path)
      else let opened = noted s (read_file s.state action.path) in
        elim (read s.state action.path) [
          | none ↦ report opened (closed (codes "[read: file not found: ") action.path)
          | some content ↦
              report
                (reply opened (closed (codes "[file: ") action.path ++ (content ++ codes "\n")))
                (closed (codes "[read ") action.path)
        ]

  unfoldable pub exec_allowed : Text → Text → Bool
  exec_allowed caps cmd =
      has_cap caps (codes "exec") || (has_cap caps (codes "read") && is_read_only cmd)

  unfoldable pub sync_exec : SyncConfig → Sync → Text → Sync
  sync_exec cfg s cmd =
      if not (exec_allowed cfg.capabilities cmd)
      then report s (closed (codes "[blocked: ") cmd)
      else let r = run s.state cmd cfg.exec_timeout cfg.max_output in
        report
          (reply (record (noted s (run_command s.state cmd)) { state = r.0 })
            (closed (codes "[command: ") cmd ++ (r.1 ++ codes "\n")))
          (closed (codes "[exec ") cmd)

  -- the blocked branch that the four kinds of edits share
  abbrev edit_blocked : Sync → Text → Sync
  edit_blocked s path =
      report (reply s (closed write_blocked path))
        (closed (codes "[blocked: write outside sandbox: ") path)

  -- a file written back, with the line on `std::cerr` if it could be opened
  unfoldable pub store : Sync → Text → Text → Text → Text → Sync
  store s path content done failed =
      let opened = noted s (write_file s.state path content) in
      elim (write s.state path content) [
        | none ↦ reply opened failed
        | some state ↦ report (record opened { state = state }) done
      ]

  unfoldable pub sync_write : SyncConfig → Sync → WriteAction → Sync
  sync_write cfg s action =
      if not (allowed cfg s action.path)
      then edit_blocked s action.path
      else store s action.path action.content (closed (codes "[wrote ") action.path)
          (closed (codes "[error: could not write ") action.path)

  abbrev not_found : Sync → Text → Sync
  not_found s path = reply s (closed (codes "[error: file not found: ") path)

  unfoldable pub sync_str_replace : SyncConfig → Sync → StrReplaceAction → Sync
  sync_str_replace cfg s action =
      if not (allowed cfg s action.path)
      then edit_blocked s action.path
      else let opened = noted s (read_file s.state action.path) in
        elim (read s.state action.path) [
          | none ↦ not_found opened action.path
          | some content ↦ elim (replace_first content action.old_str action.new_str) [
            | none ↦ reply opened (closed (codes "[error: old text not found in ") action.path)
            | some changed ↦
                store opened action.path changed (closed (codes "[str_replace ") action.path) []
          ]
        ]

  -- the number as `operator<<` prints it is left to the caller
  unfoldable pub sync_add_line : (AddLineAction → Text) → SyncConfig → Sync → AddLineAction → Sync
  sync_add_line added cfg s action =
      if not (allowed cfg s action.path)
      then edit_blocked s action.path
      else let opened = noted s (read_file s.state action.path) in
        elim (read s.state action.path) [
          | none ↦ not_found opened action.path
          | some content ↦
              store opened action.path
                (unlines (insert_line (getlines b'\n' content) action.line_number action.content))
                (added action) []
        ]

  unfoldable pub sync_delete_line : SyncConfig → Sync → DeleteLineAction → Sync
  sync_delete_line cfg s action =
      if not (allowed cfg s action.path)
      then edit_blocked s action.path
      else let opened = noted s (read_file s.state action.path) in
        elim (read s.state action.path) [
          | none ↦ not_found opened action.path
          | some content ↦ elim (erase_line (getlines b'\n' content) action.content) [
            | none ↦ reply opened (
                codes "[error: line not found in "
                ++ (action.path ++ (codes ": " ++ (action.content ++ codes "]\n"))))
            | some lines ↦
                store opened action.path (unlines lines)
                  (closed (codes "[delete_line ") action.path) []
          ]
        ]

  -- the edits, under the "write" capability; each list is parsed from the whole answer
  unfoldable pub sync_edits : (AddLineAction → Text) → Text → SyncConfig → Sync → Option Sync
  sync_edits added response cfg s = do
    writes ← parse_write_annotations response
    replaces ← parse_str_replace_annotations response
    adds ← parse_add_line_annotations response
    deletes ← parse_delete_line_annotations response
    let s₁ = for_each (sync_write cfg) writes s
    let s₂ = for_each (sync_str_replace cfg) replaces s₁
    let s₃ = for_each (sync_add_line added cfg) adds s₂
    some (for_each (sync_delete_line cfg) deletes s₃)

  unfoldable pub sync_reads : Text → SyncConfig → Sync → Option Sync
  sync_reads response cfg s =
      parse_read_annotations response >>= λ reads. some (for_each (sync_read cfg) reads s)

  unfoldable pub sync_execs : Text → SyncConfig → Sync → Option Sync
  sync_execs response cfg s =
      parse_exec_tags response >>= λ execs. some (for_each (sync_exec cfg) execs s)

  abbrev pub start_sync : State → Sync
  start_sync state = record { state = state; followup = []; err = []; trace = [] }

  unfoldable pub process_sync_annotations :
      (AddLineAction → Text) → Text → SyncConfig → State → Option Sync
  process_sync_annotations added response cfg state = do
    let caps = cfg.capabilities
    s₁ ←
        if has_cap caps (codes "read")
        then sync_reads response cfg (start_sync state)
        else some (start_sync state)
    s₂ ← sync_execs response cfg s₁
    if has_cap caps (codes "write") then sync_edits added response cfg s₂ else some s₂
