-- ===== src/Repl/ReadOnly.antt =====
-- An agent that may neither write, replace nor run: what an answer still does, the searches and tasks.
use llama_cli.Base.Cases.{if-cases, option-cases}
use llama_cli.Base.Words.{is_one_of}
use llama_cli.Annotation.Actions.{
  WriteAction, StrReplaceAction, ReadAction, SearchAction, DelegateAction,
}
use llama_cli.Config.Delegation.{DelegationTarget, resolve_delegation}
use llama_cli.Agent.Config.{find_agent_config}
use llama_cli.Repl.Console.{Desk, ReplState, denied, show_error, report_denied}
use llama_cli.Repl.Apply.{process_write, process_str_replace, confirm_exec}
use llama_cli.Repl.Files.{process_read}
use llama_cli.Repl.Response.{
  Actions, for_each, with_context, read_key, handle_reads, handle_execs, handle_searches,
  start_task, next_line, ask_task, model_label, process_delegate, handle_actions,
}
use llama_cli.Base.{
  ◌≡◌, refl, ◌∙◌, inl, inr, Bool, true, false, ◌||◌, List, [], ◌∷◌, Bool-cases, Text, codes,
  is_empty,
}

module _ (desk : Desk) (P : desk.State → Type 0) (s₀ : ReplState desk) where
  -- `P` still holds of the system, and the agent is the same
  record Still (s : ReplState desk) : Type 0 where
    holds : P s.state
    same_agents : s.agents ≡ s₀.agents
    same_active : s.active_agent ≡ s₀.active_agent

  abbrev moved :
      {s t : ReplState desk}
      → P t.state
      → t.agents ≡ s.agents
      → t.active_agent ≡ s.active_agent
      → Still s
      → Still t
  moved p e₁ e₂ h = record {
    holds = p;
    same_agents = e₁ ∙ h.same_agents;
    same_active = e₂ ∙ h.same_active;
  }

  still_denied :
      (tool : Text) (s : ReplState desk)
      → denied desk s₀ tool ≡ true
      → Still s
      → denied desk s tool ≡ true
  unfolding denied
  still_denied tool s d h = rw (h.same_agents, h.same_active, denied) d

  show_error-Still : (s : ReplState desk) (msg : Text) → Still s → Still (show_error desk s msg)
  unfolding show_error
  show_error-Still s msg h = moved h.holds refl refl h

  report_denied-Still :
      (color : Bool) (s : ReplState desk) (tool : Text)
      → Still s
      → Still (report_denied desk color s tool)
  unfolding report_denied
  report_denied-Still color s tool h =
      option-cases Still (find_agent_config s.agents s.active_agent) h
        (λ agent. moved h.holds refl refl h)

  process_write-Still :
      denied desk s₀ (codes "write") ≡ true
      → (s : ReplState desk) (action : WriteAction) → Still s
      → Still (process_write desk s action)
  unfolding process_write
  process_write-Still d s action h =
      rw (still_denied (codes "write") s d h, process_write) (report_denied-Still _ s _ h)

  process_str_replace-Still :
      denied desk s₀ (codes "str_replace") ≡ true
      → (s : ReplState desk) (action : StrReplaceAction) → Still s
      → Still (process_str_replace desk s action)
  unfolding process_str_replace
  process_str_replace-Still d s action h =
      rw (still_denied (codes "str_replace") s d h, process_str_replace)
        (report_denied-Still _ s _ h)

  confirm_exec-Still :
      denied desk s₀ (codes "exec") ≡ true
      → (cmd : Text) (s : ReplState desk) → Still s
      → Still (confirm_exec desk cmd s).1
  unfolding confirm_exec
  confirm_exec-Still d cmd s h =
      rw (still_denied (codes "exec") s d h, confirm_exec) (report_denied-Still _ s _ h)

  for_each-Still {ℓ} :
      {A : Type ℓ} (step : ReplState desk → A → ReplState desk)
      → ((s : ReplState desk) (a : A) → Still s → Still (step s a))
      → (actions : List A) (s : ReplState desk) → Still s
      → Still (for_each desk step actions s)
  unfolding for_each
  for_each-Still step keep [] s h = h
  for_each-Still step keep (a ∷ actions) s h =
      for_each-Still step keep actions (step s a) (keep s a h)

  with_context-Still :
      (followup : Bool) (label : Text → Text) (r : Text × ReplState desk)
      → Still r.1
      → Still (with_context desk followup label r).1
  unfolding with_context
  with_context-Still followup label (text, s) h =
      if-cases (λ (r : Bool × ReplState desk). Still r.1) (is_empty text) (λ _. h)
        (λ _. moved h.holds refl refl h)

  process_read-Still :
      (s : ReplState desk) (action : ReadAction) → Still s → Still (process_read desk s action).1
  unfolding process_read
  process_read-Still s action h =
      option-cases (λ (r : Text × ReplState desk). Still r.1) (desk.read s.state action.path)
        (show_error-Still s _ h) (λ _. h)

  handle_reads-Still :
      (reads : List ReadAction) (seen : List Text) (r : Bool × ReplState desk)
      → Still r.1
      → Still (handle_reads desk reads seen r).1
  unfolding handle_reads
  handle_reads-Still [] seen r h = h
  handle_reads-Still (action ∷ reads) seen (followup, s) h =
      let r = with_context desk followup (λ text. text) (process_read desk s action) in
      elim (Bool-cases (is_one_of seen (read_key desk action))) [
        | inl e ↦ rw (e, handle_reads) (handle_reads-Still reads seen (followup, s) h)
        | inr e ↦
            rw (e, handle_reads)
              (handle_reads-Still reads (read_key desk action ∷ seen) r
                (with_context-Still followup (λ text. text) _ (process_read-Still s action h)))
      ]

  handle_execs-Still :
      denied desk s₀ (codes "exec") ≡ true
      → (execs : List Text) (r : Bool × ReplState desk) → Still r.1
      → Still (handle_execs desk execs r).1
  unfolding handle_execs
  handle_execs-Still d [] r h = h
  handle_execs-Still d (cmd ∷ execs) (followup, s) h =
      handle_execs-Still d execs _
        (with_context-Still followup _ (confirm_exec desk cmd s) (confirm_exec-Still d cmd s h))

  handle_searches-Still :
      ((w : desk.State) (query : Text) → P w → P (desk.search w query).0)
      → (searches : List SearchAction) (r : Bool × ReplState desk) → Still r.1
      → Still (handle_searches desk searches r).1
  unfolding handle_searches
  handle_searches-Still q [] r h = h
  handle_searches-Still q (action ∷ searches) (followup, s) h =
      handle_searches-Still q searches (true, _)
        (moved (q s.state action.query h.holds) refl refl h)

  next_line-Still :
      (s : ReplState desk) (lines : List Text) → Still s → Still (next_line desk s lines).1
  unfolding next_line
  next_line-Still s [] h = h
  next_line-Still s (line ∷ lines) h = moved h.holds refl refl h

  ask_task-Still :
      (action : DelegateAction) (label : Text) (s : ReplState desk)
      → Still s
      → Still (ask_task desk action label s).1
  unfolding ask_task
  ask_task-Still action label s h =
      let h₁ = next_line-Still _ s.input (moved h.holds refl refl h) in moved h₁.holds refl refl h₁

  process_delegate-Still :
      ((w : desk.State) (target : DelegationTarget) (prompt : Text)
        → P w
        → P (desk.start_task w target prompt))
      → (s : ReplState desk) (action : DelegateAction) → Still s
      → Still (process_delegate desk s action)
  unfolding process_delegate start_task
  process_delegate-Still q s action h =
      let target = resolve_delegation s.cfg.roles action.role in
      let label = model_label desk s target in
      let r = ask_task desk action label s in
      let h₁ = ask_task-Still action label s h in
      if-cases Still (r.0 || r.1.trust) {x = start_task desk action target label r.1}
        (λ _. moved (q r.1.state target action.prompt h₁.holds) refl refl h₁) (λ _. h₁)

-- An agent that is denied to write, to replace and to run commands can do none of these: whatever the
-- answer proposes, in trust mode too and whatever the user types, a property of the system that searches
-- and background tasks keep is kept.
pub handle_actions-ReadOnly :
    (desk : Desk) (P : desk.State → Type 0) (a : Actions) (s : ReplState desk)
    → ((w : desk.State) (query : Text) → P w → P (desk.search w query).0)
    → ((w : desk.State) (target : DelegationTarget) (prompt : Text)
        → P w
        → P (desk.start_task w target prompt))
    → denied desk s (codes "write") ≡ true
    → denied desk s (codes "str_replace") ≡ true
    → denied desk s (codes "exec") ≡ true
    → P s.state
    → P (handle_actions desk a s).1.state
unfolding handle_actions
handle_actions-ReadOnly desk P a s searching starting no_write no_replace no_exec p =
    let h : Still desk P s s = record { holds = p; same_agents = refl; same_active = refl } in
    let h₁ =
      for_each-Still desk P s (process_write desk) (process_write-Still desk P s no_write) a.writes
        s h in
    let h₂ =
      for_each-Still desk P s (process_str_replace desk)
        (process_str_replace-Still desk P s no_replace) a.replaces _ h₁ in
    let r₃ = handle_reads desk a.reads [] (
      false,
      for_each desk (process_str_replace desk) a.replaces
          (for_each desk (process_write desk) a.writes s),
    ) in
    let h₃ = handle_reads-Still desk P s a.reads [] (false, _) h₂ in
    let r₄ = handle_execs desk a.execs r₃ in
    let h₄ = handle_execs-Still desk P s no_exec a.execs r₃ h₃ in
    (for_each-Still desk P s (process_delegate desk) (process_delegate-Still desk P s starting)
      a.delegates _
      (if-cases (λ (r : Bool × ReplState desk). Still desk P s r.1) r₄.1.cfg.allow_web_search
        {x = handle_searches desk a.searches r₄} {y = r₄}
        (λ _. handle_searches-Still desk P s searching a.searches r₄ h₄) (λ _. h₄))).holds
