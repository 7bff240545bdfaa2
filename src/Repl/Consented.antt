-- ===== src/Repl/Consented.antt =====
-- That everything an answer does is agreed to: `handle_response` keeps the invariant of the trace,
-- through its reads, commands, searches and tasks.
use llama_cli.Base.Cases.{if-cases, option-cases}
use llama_cli.Base.Words.{is_one_of}
use llama_cli.Annotation.Actions.{ReadAction, SearchAction, DelegateAction}
use llama_cli.Annotation.Total.{parsers_total}
use llama_cli.Sync.Tags.{parse_exec_tags_total}
use llama_cli.Config.Delegation.{DelegationTarget, resolve_delegation}
use llama_cli.Repl.Console.{Desk, to_delegate, started, ReplState}
use llama_cli.Repl.Apply.{process_write, process_str_replace, confirm_exec}
use llama_cli.Repl.Files.{process_read}
use llama_cli.Repl.Response.{
  Actions, parse_actions, has_annotations, for_each, with_context, read_key, handle_reads,
  handle_execs, handle_searches, start_task, next_line, ask_task, model_label, process_delegate,
  handle_actions, show_answer, cleaned, handle_response,
}
use llama_cli.Repl.Consent.{Permitted, Inv, same-Inv, noted-Inv, trust-Permitted, Asked}
use llama_cli.Repl.Changes.{
  show_error-Inv, process_write-Inv, process_str_replace-Inv, confirm_exec-Inv,
}
use llama_cli.Base.{
  ℕ, ◌≡◌, refl, sym, ◌∙◌, inl, inr, Bool, true, false, not, ◌||◌, Option, none, some, List, [], ◌∷◌,
  arith, Bool-cases, ◌>>=◌, Text, is_empty,
}

module _ (start auto : Bool) (desk : Desk) (live : Bool) where
  abbrev Kept : ReplState desk → Type 0
  Kept s = Inv start auto desk live s

  abbrev same :
      {s t : ReplState desk}
      → t.trace ≡ s.trace
      → t.trust ≡ s.trust
      → t.cfg ≡ s.cfg
      → t.streaming ≡ s.streaming
      → Kept s
      → Kept t
  same = same-Inv start auto desk live

  for_each-Inv {ℓ} :
      {A : Type ℓ} (step : ReplState desk → A → ReplState desk)
      → ((s : ReplState desk) (a : A) → Kept s → Kept (step s a))
      → (actions : List A) (s : ReplState desk) → Kept s
      → Kept (for_each desk step actions s)
  unfolding for_each
  for_each-Inv step keep [] s h = h
  for_each-Inv step keep (a ∷ actions) s h = for_each-Inv step keep actions (step s a) (keep s a h)

  with_context-Inv :
      (followup : Bool) (label : Text → Text) (r : Text × ReplState desk)
      → Kept r.1
      → Kept (with_context desk followup label r).1
  unfolding with_context
  with_context-Inv followup label (text, s) h =
      if-cases (λ (r : Bool × ReplState desk). Kept r.1) (is_empty text) (λ _. h)
        (λ _. same refl refl refl refl h)

  process_read-Inv :
      (s : ReplState desk) (action : ReadAction) → Kept s → Kept (process_read desk s action).1
  unfolding process_read
  process_read-Inv s action h =
      option-cases (λ (r : Text × ReplState desk). Kept r.1) (desk.read s.state action.path)
        (show_error-Inv start auto desk live s _ h) (λ _. h)

  handle_reads-Inv :
      (reads : List ReadAction) (seen : List Text) (r : Bool × ReplState desk)
      → Kept r.1
      → Kept (handle_reads desk reads seen r).1
  unfolding handle_reads
  handle_reads-Inv [] seen r h = h
  handle_reads-Inv (action ∷ reads) seen (followup, s) h =
      let r = with_context desk followup (λ text. text) (process_read desk s action) in
      elim (Bool-cases (is_one_of seen (read_key desk action))) [
        | inl e ↦ rw (e, handle_reads) (handle_reads-Inv reads seen (followup, s) h)
        | inr e ↦
            rw (e, handle_reads)
              (handle_reads-Inv reads (read_key desk action ∷ seen) r
                (with_context-Inv followup (λ text. text) _ (process_read-Inv s action h)))
      ]

  handle_execs-Inv :
      (execs : List Text) (r : Bool × ReplState desk)
      → Kept r.1
      → Kept (handle_execs desk execs r).1
  unfolding handle_execs
  handle_execs-Inv [] r h = h
  handle_execs-Inv (cmd ∷ execs) (followup, s) h = handle_execs-Inv execs _ (
      with_context-Inv followup _ (confirm_exec desk cmd s)
        (confirm_exec-Inv start auto desk live cmd s h))

  handle_searches-Inv :
      (searches : List SearchAction) (r : Bool × ReplState desk)
      → Kept r.1
      → Kept (handle_searches desk searches r).1
  unfolding handle_searches
  handle_searches-Inv [] r h = h
  handle_searches-Inv (action ∷ searches) (followup, s) h =
      handle_searches-Inv searches (true, _) (same refl refl refl refl h)

  start_task-Inv :
      (action : DelegateAction) (target : DelegationTarget) (label : Text) (s : ReplState desk)
      → Permitted start auto (to_delegate action.prompt) s.trace
      → Kept s
      → Kept (start_task desk action target label s)
  unfolding start_task
  start_task-Inv action target label s p h =
      same refl refl refl refl
        (noted-Inv start auto desk live s (started action.prompt) (p, h.consented) h)

  next_line-Inv :
      (s : ReplState desk) (lines : List Text) → Kept s → Kept (next_line desk s lines).1
  unfolding next_line
  next_line-Inv s [] h = h
  next_line-Inv s (line ∷ lines) h = same refl refl refl refl h

  -- a task may start after a yes
  ask_task-Asked :
      (action : DelegateAction) (label : Text) (s : ReplState desk)
      → Kept s
      → (let r = ask_task desk action label s in
          Asked start auto desk live (to_delegate action.prompt) r.0 r.1)
  unfolding ask_task
  ask_task-Asked action label s h =
      let h₁ = next_line-Inv _ s.input (same refl refl refl refl h) in
      (noted-Inv start auto desk live _ _ h₁.consented h₁, λ e. inr (inr (inl (rw e refl))))

  process_delegate-Inv :
      (s : ReplState desk) (action : DelegateAction)
      → Kept s
      → Kept (process_delegate desk s action)
  unfolding process_delegate
  process_delegate-Inv s action h =
      let target = resolve_delegation s.cfg.roles action.role in
      let label = model_label desk s target in
      let r = ask_task desk action label s in
      let (h₁, p) = ask_task-Asked action label s h in
      if-cases Kept (r.0 || r.1.trust)
        (λ e.
          start_task-Inv action target label r.1
            (elim (Bool-cases r.0) [
              | inl agreed ↦ p agreed
              | inr not_agreed ↦ trust-Permitted start auto desk live r.1 _ h₁ (ground arith)
            ])
            h₁)
        (λ _. h₁)

  pub handle_actions-Inv :
      (a : Actions) (s : ReplState desk) → Kept s → Kept (handle_actions desk a s).1
  unfolding handle_actions
  handle_actions-Inv a s h =
      let h₁ =
        for_each-Inv (process_write desk) (process_write-Inv start auto desk live) a.writes s h in
      let h₂ =
        for_each-Inv (process_str_replace desk) (process_str_replace-Inv start auto desk live)
          a.replaces _ h₁ in
      let r₃ = handle_reads desk a.reads [] (
        false,
        for_each desk (process_str_replace desk) a.replaces
            (for_each desk (process_write desk) a.writes s),
      ) in
      let h₃ = handle_reads-Inv a.reads [] (false, _) h₂ in
      let r₄ = handle_execs desk a.execs r₃ in
      let h₄ = handle_execs-Inv a.execs r₃ h₃ in
      for_each-Inv (process_delegate desk) process_delegate-Inv a.delegates _ (
        if-cases (λ (r : Bool × ReplState desk). Kept r.1) r₄.1.cfg.allow_web_search
          {x = handle_searches desk a.searches r₄} {y = r₄}
          (λ _. handle_searches-Inv a.searches r₄ h₄) (λ _. h₄))

  show_answer-Inv : (text : Text) (s : ReplState desk) → Kept s → Kept (show_answer desk text s)
  unfolding show_answer
  show_answer-Inv text s h = if-cases Kept s.streaming (λ _. h) (λ _. same refl refl refl refl h)

-- the parsers of an answer end on every text
parse_actions_total : (response : Text) → (a : Actions) × (parse_actions response ≡ some a)
unfolding parse_actions
parse_actions_total response =
    let (w, r, d, e, f, g, h) = parsers_total response in
    let x = parse_exec_tags_total response in
    (
      record {
        writes = w.0;
        replaces = r.0;
        reads = d.0;
        execs = x.0;
        searches = e.0;
        delegates = h.0;
      },
      rw (w.1, r.1, d.1, x.1, e.1, h.1) refl,
    )

-- Where a strip loop still runs, the answers are not streamed; else the result is as told.
abbrev pub Ends {ℓ} : {A : Type ℓ} → Bool → (A → Type 0) → Option A → Type 0
Ends live P none = live ≡ false
Ends live P (some a) = P a

buffered-Ends {ℓ} :
    {A : Type ℓ} (live : Bool) (o : Option A) → live ≡ false → Ends live (λ _. Unit) o
buffered-Ends live none e = e
buffered-Ends live (some a) e = tt

pub >>=-Ends {ℓ ℓ'} :
    {A : Type ℓ} {B : Type ℓ'} (live : Bool) (P : A → Type 0) (Q : B → Type 0) (o : Option A)
    (f : A → Option B)
    → Ends live P o
    → ((a : A) → P a → Ends live Q (f a))
    → Ends live Q (o >>= f)
>>=-Ends live P Q none f h g = h
>>=-Ends live P Q (some a) f h g = g a h

module _ (start auto : Bool) (desk : Desk) (live : Bool) where
  abbrev pub Answered : Bool × ReplState desk → Type 0
  Answered r = Inv start auto desk live r.1

  cleaned-Ends :
      (fuel : ℕ) (response : Text) (s : ReplState desk)
      → s.streaming ≡ live
      → Ends live (λ _. Unit) (cleaned desk fuel response s)
  unfolding cleaned
  cleaned-Ends fuel response s e =
      if-cases (Ends live (λ _. Unit)) s.streaming (λ _. tt)
        (λ ne. buffered-Ends live _ (sym e ∙ ne))

  pub handle_response-Ends :
      (fuel : ℕ) (response : Text) (s : ReplState desk)
      → Inv start auto desk live s
      → Ends live Answered (handle_response desk fuel response s)
  unfolding handle_response
  handle_response-Ends fuel response s h =
      let (a, e) = parse_actions_total response in
      rw e (
        if-cases (Ends live Answered) (not (has_annotations a))
          (λ _. show_answer-Inv start auto desk live response s h)
          (λ _.
            >>=-Ends live (λ _. Unit) Answered _ _ (cleaned-Ends fuel response s h.mode)
              (λ text _.
                handle_actions-Inv start auto desk live a _
                  (show_answer-Inv start auto desk live text s h))))
