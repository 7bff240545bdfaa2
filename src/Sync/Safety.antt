-- ===== src/Sync/Safety.antt =====
-- What sync mode may touch: every access to the system is covered by a capability, and every file
-- that it opens lies in the sandbox.
use llama_cli.Annotation.Actions.{
  WriteAction, StrReplaceAction, ReadAction, AddLineAction, DeleteLineAction,
}
use llama_cli.Annotation.Total.{parsers_total}
use llama_cli.Sync.Caps.{has_cap}
use llama_cli.Sync.ReadOnly.{is_read_only}
use llama_cli.Sync.Paths.{path_allowed}
use llama_cli.Sync.Tags.{parse_exec_tags_total}
use llama_cli.Sync.Lines.{replace_first, erase_line, unlines}
use llama_cli.Base.Words.{getlines}
use llama_cli.Sync.Process.{
  System, SyncConfig, Access, read_file, write_file, run_command, Sync, for_each, sync_read,
  sync_exec, exec_allowed, sync_write, sync_str_replace, sync_add_line, sync_delete_line, store,
  sync_edits, sync_reads, sync_execs, start_sync, process_sync_annotations,
}
use llama_cli.Base.{
  ◌≡◌, refl, ◌⊎◌, inl, inr, true, Option, some, List, [], ◌∷◌, arith, if◌then◌else◌, Bool-cases,
  Option-cases, All, Text, codes,
}

module _ (system : System) (cfg : SyncConfig) where
  open system use {State, realpath, read, write, run}

  abbrev pub Granted : Text → Type 0
  Granted cap = has_cap cfg.capabilities cap ≡ true

  abbrev pub Inside : State → Text → Type 0
  Inside state path = path_allowed (realpath state) path cfg.sandbox ≡ true

  -- A file is read under "read" or, by an edit, under "write"; it is written under "write"; a command
  -- runs under "exec", or under "read" if it passes for read-only.
  abbrev pub IsCovered : Access system → Type 0
  IsCovered (read_file state path) =
      Inside state path × (Granted (codes "read") ⊎ Granted (codes "write"))
  IsCovered (write_file state path content) = Inside state path × Granted (codes "write")
  IsCovered (run_command state cmd) =
      Granted (codes "exec") ⊎ (Granted (codes "read") × (is_read_only cmd ≡ true))

  abbrev AllCovered : Sync system → Type 0
  AllCovered s = All IsCovered s.trace

  for_each-AllCovered {ℓ} :
      {A : Type ℓ} (step : Sync system → A → Sync system)
      → ((s : Sync system) (a : A) → AllCovered s → AllCovered (step s a))
      → (actions : List A) (s : Sync system) → AllCovered s
      → AllCovered (for_each system step actions s)
  unfolding for_each
  for_each-AllCovered step keep [] s h = h
  for_each-AllCovered step keep (a ∷ actions) s h =
      for_each-AllCovered step keep actions (step s a) (keep s a h)

  sync_read-AllCovered :
      Granted (codes "read")
      → (s : Sync system) (action : ReadAction) → AllCovered s
      → AllCovered (sync_read system cfg s action)
  unfolding sync_read
  sync_read-AllCovered g s action h =
      elim (Bool-cases (path_allowed (realpath s.state) action.path cfg.sandbox)) [
        | inr e ↦ rw (e, sync_read) h
        | inl e ↦ elim (Option-cases (read s.state action.path)) [
          | inl e' ↦ rw (e, e', sync_read) ((e, inl g), h)
          | inr (content, e') ↦ rw (e, e', sync_read) ((e, inl g), h)
        ]
      ]

  sync_exec-AllCovered :
      (s : Sync system) (cmd : Text) → AllCovered s → AllCovered (sync_exec system cfg s cmd)
  unfolding sync_exec
  sync_exec-AllCovered s cmd h = elim (Bool-cases (exec_allowed system cfg.capabilities cmd)) [
    | inr e ↦ rw (e, sync_exec) h
    | inl e ↦ rw (e, sync_exec) (unfold exec_allowed in ground arith, h)
  ]

  module _ (g : Granted (codes "write")) where
    store-AllCovered :
        (s : Sync system) (path content done failed : Text)
        → Inside s.state path
        → AllCovered s
        → AllCovered (store system s path content done failed)
    unfolding store
    store-AllCovered s path content done failed i h =
        elim (Option-cases (write s.state path content)) [
          | inl e ↦ rw (e, store) ((i, g), h)
          | inr (state, e) ↦ rw (e, store) ((i, g), h)
        ]

    sync_write-AllCovered :
        (s : Sync system) (action : WriteAction)
        → AllCovered s
        → AllCovered (sync_write system cfg s action)
    unfolding sync_write
    sync_write-AllCovered s action h =
        elim (Bool-cases (path_allowed (realpath s.state) action.path cfg.sandbox)) [
          | inr e ↦ rw (e, sync_write) h
          | inl e ↦ rw (e, sync_write) (store-AllCovered s action.path action.content _ _ e h)
        ]

    sync_str_replace-AllCovered :
        (s : Sync system) (action : StrReplaceAction)
        → AllCovered s
        → AllCovered (sync_str_replace system cfg s action)
    unfolding sync_str_replace
    sync_str_replace-AllCovered s action h =
        elim (Bool-cases (path_allowed (realpath s.state) action.path cfg.sandbox)) [
          | inr e ↦ rw (e, sync_str_replace) h
          | inl e ↦ elim (Option-cases (read s.state action.path)) [
            | inl e' ↦ rw (e, e', sync_str_replace) ((e, inr g), h)
            | inr (content, e') ↦
                elim (Option-cases (replace_first content action.old_str action.new_str)) [
                  | inl e'' ↦ rw (e, e', e'', sync_str_replace) ((e, inr g), h)
                  | inr (changed, e'') ↦
                      rw (e, e', e'', sync_str_replace)
                        (store-AllCovered _ action.path changed _ _ e ((e, inr g), h))
                ]
          ]
        ]

    sync_add_line-AllCovered :
        (added : AddLineAction → Text) (s : Sync system) (action : AddLineAction)
        → AllCovered s
        → AllCovered (sync_add_line system added cfg s action)
    unfolding sync_add_line
    sync_add_line-AllCovered added s action h =
        elim (Bool-cases (path_allowed (realpath s.state) action.path cfg.sandbox)) [
          | inr e ↦ rw (e, sync_add_line) h
          | inl e ↦ elim (Option-cases (read s.state action.path)) [
            | inl e' ↦ rw (e, e', sync_add_line) ((e, inr g), h)
            | inr (content, e') ↦
                rw (e, e', sync_add_line) (store-AllCovered _ action.path _ _ _ e ((e, inr g), h))
          ]
        ]

    sync_delete_line-AllCovered :
        (s : Sync system) (action : DeleteLineAction)
        → AllCovered s
        → AllCovered (sync_delete_line system cfg s action)
    unfolding sync_delete_line
    sync_delete_line-AllCovered s action h =
        elim (Bool-cases (path_allowed (realpath s.state) action.path cfg.sandbox)) [
          | inr e ↦ rw (e, sync_delete_line) h
          | inl e ↦ elim (Option-cases (read s.state action.path)) [
            | inl e' ↦ rw (e, e', sync_delete_line) ((e, inr g), h)
            | inr (content, e') ↦
                elim (Option-cases (erase_line (getlines b'\n' content) action.content)) [
                  | inl e'' ↦ rw (e, e', e'', sync_delete_line) ((e, inr g), h)
                  | inr (lines, e'') ↦
                      rw (e, e', e'', sync_delete_line)
                        (store-AllCovered _ action.path (unlines lines) _ _ e ((e, inr g), h))
                ]
          ]
        ]

  -- The stages: each gives a state, and keeps the invariant.
  abbrev Stage : Option (Sync system) → Type 0
  Stage r = (s : Sync system) × (r ≡ some s) × AllCovered s

  sync_reads-Stage :
      (response : Text)
      → Granted (codes "read")
      → (s : Sync system) → AllCovered s
      → Stage (sync_reads system response cfg s)
  unfolding sync_reads
  sync_reads-Stage response g s h =
      let (reads, e) = (parsers_total response).2 in
      (
        for_each system (sync_read system cfg) reads s,
        rw e,
        for_each-AllCovered (sync_read system cfg) (sync_read-AllCovered g) reads s h,
      )

  sync_execs-Stage :
      (response : Text) (s : Sync system) → AllCovered s → Stage (sync_execs system response cfg s)
  unfolding sync_execs
  sync_execs-Stage response s h =
      let (cmds, e) = parse_exec_tags_total response in
      (
        for_each system (sync_exec system cfg) cmds s,
        rw e,
        for_each-AllCovered (sync_exec system cfg) sync_exec-AllCovered cmds s h,
      )

  sync_edits-Stage :
      (added : AddLineAction → Text) (response : Text)
      → Granted (codes "write")
      → (s : Sync system) → AllCovered s
      → Stage (sync_edits system added response cfg s)
  unfolding sync_edits
  sync_edits-Stage added response g s h =
      let (writes, e₁) = (parsers_total response).0 in
      let (replaces, e₂) = (parsers_total response).1 in
      let (adds, e₃) = (parsers_total response).4 in
      let (deletes, e₄) = (parsers_total response).5 in
      let s₁ = for_each system (sync_write system cfg) writes s in
      let s₂ = for_each system (sync_str_replace system cfg) replaces s₁ in
      let s₃ = for_each system (sync_add_line system added cfg) adds s₂ in
      let h₁ = for_each-AllCovered (sync_write system cfg) (sync_write-AllCovered g) writes s h in
      let h₂ =
        for_each-AllCovered (sync_str_replace system cfg) (sync_str_replace-AllCovered g) replaces
          s₁ h₁ in
      let h₃ =
        for_each-AllCovered (sync_add_line system added cfg) (sync_add_line-AllCovered g added) adds
          s₂ h₂ in
      (
        for_each system (sync_delete_line system cfg) deletes s₃,
        rw (e₁, e₂, e₃, e₄),
        for_each-AllCovered (sync_delete_line system cfg) (sync_delete_line-AllCovered g) deletes s₃
            h₃,
      )

  -- a stage under a capability
  Granted-Stage :
      (cap : Text) (m : Option (Sync system)) (s : Sync system)
      → (Granted cap → Stage m)
      → AllCovered s
      → Stage (if has_cap cfg.capabilities cap then m else some s)
  Granted-Stage cap m s run_stage h = elim (Bool-cases (has_cap cfg.capabilities cap)) [
    | inl e ↦ rw e (run_stage e)
    | inr e ↦ rw e (s, refl, h)
  ]

  -- Sync mode ends on every answer, and whatever the answer asks for, every access that it makes is
  -- covered: a file is opened only where `path_allowed` holds in the state of that moment, read under
  -- "read" or "write" and written under "write"; a command runs only under "exec", or under "read" if
  -- `is_read_only` accepts it.
  pub process-IsCovered :
      (added : AddLineAction → Text) (response : Text) (state : State)
      → (s : Sync system) × (process_sync_annotations system added response cfg state ≡ some s)
        × All IsCovered s.trace
  unfolding process_sync_annotations
  process-IsCovered added response state =
      let (s₁, e₁, h₁) =
        Granted-Stage (codes "read") (sync_reads system response cfg (start_sync system state))
          (start_sync system state) (λ g. sync_reads-Stage response g (start_sync system state) tt)
          tt in
      let (s₂, e₂, h₂) = sync_execs-Stage response s₁ h₁ in
      let (s₃, e₃, h₃) =
        Granted-Stage (codes "write") (sync_edits system added response cfg s₂) s₂
          (λ g. sync_edits-Stage added response g s₂ h₂) h₂ in
      (s₃, rw (e₁, e₂, e₃), h₃)
