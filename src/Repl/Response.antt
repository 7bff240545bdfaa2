-- ===== src/Repl/Response.antt =====
-- src/repl/repl_chat.cpp: `colorize_ai` and `handle_response`.
use llama_cli.Base.Int.{ℤ, pos, negsuc}
use llama_cli.Base.Words.{is_one_of}
use llama_cli.Provider.Message.{Message}
use llama_cli.Annotation.Actions.{
  WriteAction, StrReplaceAction, ReadAction, SearchAction, DelegateAction,
}
use llama_cli.Annotation.Parse.{
  parse_write_annotations, parse_str_replace_annotations, parse_read_annotations,
  parse_search_annotations, parse_delegate_annotations,
}
use llama_cli.Annotation.Strip.{strip_annotations}
use llama_cli.Sync.Tags.{parse_exec_tags}
use llama_cli.Config.Delegation.{DelegationTarget, resolve_delegation}
use llama_cli.Repl.Console.{
  Desk, to_delegate, yes_reply, no_reply, asked, started, reset, newline, ReplState, print, noted,
}
use llama_cli.Repl.Apply.{process_write, process_str_replace, confirm_exec}
use llama_cli.Repl.Files.{process_read, strip_exec_annotations}
use llama_cli.Base.{
  ℕ, zero, suc, ◌+◌, Bool, true, false, not, ◌&&◌, ◌||◌, Option, none, some, List, [], ◌∷◌, ◌++◌,
  if◌then◌else◌, ◌>>=◌, length, take, drop, Text, codes, is_empty, text_eq, find,
}

-- The actions of an answer, each list parsed from the whole of it.
pub record Actions : Type 0 where
  pub writes : List WriteAction
  pub replaces : List StrReplaceAction
  pub reads : List ReadAction
  pub execs : List Text
  pub searches : List SearchAction
  pub delegates : List DelegateAction

unfoldable pub parse_actions : Text → Option Actions
parse_actions response = do
  writes ← parse_write_annotations response
  replaces ← parse_str_replace_annotations response
  reads ← parse_read_annotations response
  execs ← parse_exec_tags response
  searches ← parse_search_annotations response
  delegates ← parse_delegate_annotations response
  some (record {
    writes = writes;
    replaces = replaces;
    reads = reads;
    execs = execs;
    searches = searches;
    delegates = delegates;
  })

unfoldable pub has_annotations : Actions → Bool
has_annotations a =
    not (is_empty a.writes)
    || not (is_empty a.replaces)
    || not (is_empty a.reads)
    || not (is_empty a.execs)
    || not (is_empty a.searches)
    || not (is_empty a.delegates)

-- the loop of `colorize_ai`: the colour again behind each reset
unfoldable pub recolor : Text → ℕ → Text → Text
recolor color_code zero text = text
recolor color_code (suc fuel) text = elim (find reset text) [
  | none ↦ text
  | some at ↦ take (at + 4) text ++ (color_code ++ recolor color_code fuel (drop (at + 4) text))
]

unfoldable pub int_text : (ℕ → Text) → ℤ → Text
int_text to_string (pos n) = to_string n
int_text to_string (negsuc n) = codes "-" ++ to_string (n + 1)

abbrev user_message : Text → Message
user_message content = record { role = codes "user"; content = content; rating = []; images = [] }

module _ (desk : Desk) where
  unfoldable pub colorize_ai : Text → ReplState desk → Text
  colorize_ai text s =
      let color_code =
        if is_empty s.ai_color
        then desk.theme.ai
        else (27 ∷ codes "[") ++ (s.ai_color ++ codes "m") in
      if not s.color || is_empty color_code
      then text
      else color_code ++ (recolor color_code (length text + 1) text ++ reset)

  abbrev pub remember : ReplState desk → Text → ReplState desk
  remember s content = record s { history = s.history ++ user_message content ∷ [] }

  unfoldable pub for_each {ℓ} :
      {A : Type ℓ}
      → (ReplState desk → A → ReplState desk)
      → List A
      → ReplState desk
      → ReplState desk
  for_each step [] s = s
  for_each step (a ∷ actions) s = for_each step actions (step s a)

  -- an action that gives context for the model, with the flag of a follow-up
  unfoldable pub with_context : Bool → (Text → Text) → Text × ReplState desk → Bool × ReplState desk
  with_context followup label (text, s) =
      if is_empty text then (followup, s) else (true, remember s (label text))

  unfoldable pub read_key : ReadAction → Text
  read_key action =
      action.path
      ++ (codes "|"
          ++ (int_text desk.to_string action.from_line
              ++ (codes "-"
                  ++ (int_text desk.to_string action.to_line ++ (codes "|" ++ action.search)))))

  -- the reads, each key once
  unfoldable pub handle_reads :
      List ReadAction → List Text → Bool × ReplState desk → Bool × ReplState desk
  handle_reads [] seen r = r
  handle_reads (action ∷ reads) seen (followup, s) = elim (is_one_of seen (read_key action)) [
    | true ↦ handle_reads reads seen (followup, s)
    | false ↦
        handle_reads reads (read_key action ∷ seen)
          (with_context followup (λ text. text) (process_read desk s action))
  ]

  unfoldable pub handle_execs : List Text → Bool × ReplState desk → Bool × ReplState desk
  handle_execs [] r = r
  handle_execs (cmd ∷ execs) (followup, s) = handle_execs execs (
      with_context followup (λ output. codes "[command: " ++ (cmd ++ (codes "]\n" ++ output)))
        (confirm_exec desk cmd s))

  abbrev info_line : Text → Text
  info_line text = desk.theme.info ++ (text ++ reset)

  -- a search is not confirmed, and its result is kept whatever it is
  unfoldable pub handle_searches : List SearchAction → Bool × ReplState desk → Bool × ReplState desk
  handle_searches [] r = r
  handle_searches (action ∷ searches) (followup, s) =
      let (state, result) = desk.search s.state action.query in
      let s₁ =
        print desk (record s { state = state })
          (info_line (codes "[searching: " ++ (action.query ++ codes "]")) ++ newline) in
      handle_searches searches (true, remember s₁ result)

  unfoldable pub start_task :
      DelegateAction → DelegationTarget → Text → ReplState desk → ReplState desk
  start_task action target label s =
      let s₁ =
        noted desk
          (record s {
            state = desk.start_task s.state target action.prompt;
            tasks = s.tasks ++ (label, action.prompt) ∷ [];
          })
          (started action.prompt) in
      print desk s₁ (
        info_line (codes "[task started " ++ (226 ∷ 128 ∷ 148 ∷ codes " /tasks to check]"))
        ++ newline)

  -- the answer to the question of a task, which is read with no prompt of linenoise
  unfoldable pub next_line : ReplState desk → List Text → Text × ReplState desk
  next_line s [] = ([], s)
  next_line s (line ∷ lines) = (line, record s { input = lines })

  abbrev pub is_yes : Text → Bool
  is_yes answer = text_eq answer (codes "y") || text_eq answer (codes "Y")

  -- the question of a task: whether the answer is yes
  unfoldable pub ask_task : DelegateAction → Text → ReplState desk → Bool × ReplState desk
  ask_task action label s =
      let role_label = if is_empty action.role then codes "default" else action.role in
      let s₁ = print desk s (
        info_line (
          codes "[delegate:"
          ++ (role_label ++ ((32 ∷ 226 ∷ 134 ∷ 146 ∷ 32 ∷ []) ++ (label ++ codes "] "))))
        ++ (action.prompt ++ (newline ++ codes "Run in background? [y/n] "))) in
      let (answer, s₂) = next_line s₁ s₁.input in
      (
        is_yes answer,
        noted desk s₂
            (asked (to_delegate action.prompt) (if is_yes answer then yes_reply else no_reply)),
      )

  abbrev pub model_label : ReplState desk → DelegationTarget → Text
  model_label s target = if is_empty target.model then s.cfg.model else target.model

  unfoldable pub process_delegate : ReplState desk → DelegateAction → ReplState desk
  process_delegate s action =
      let target = resolve_delegation s.cfg.roles action.role in
      let (agreed, s₁) = ask_task action (model_label s target) s in
      if agreed || s₁.trust then start_task action target (model_label s target) s₁ else s₁

  -- everything behind the display: whether the model is called again, and the state
  unfoldable pub handle_actions : Actions → ReplState desk → Bool × ReplState desk
  handle_actions a s =
      let s₁ = for_each (process_write desk) a.writes s in
      let s₂ = for_each (process_str_replace desk) a.replaces s₁ in
      let r₃ = handle_reads a.reads [] (false, s₂) in
      let r₄ = handle_execs a.execs r₃ in
      let r₅ = if r₄.1.cfg.allow_web_search then handle_searches a.searches r₄ else r₄ in
      (r₅.0, for_each process_delegate a.delegates r₅.1)

  -- an answer on the screen, unless it was shown while it arrived
  unfoldable pub show_answer : Text → ReplState desk → ReplState desk
  show_answer text s =
      if s.streaming
      then s
      else print desk s (colorize_ai (desk.render text (s.color && s.markdown)) s ++ newline)

  -- the text of an answer with summaries for its annotations; fuel for the loops that strip them
  unfoldable pub cleaned : ℕ → Text → ReplState desk → Option Text
  cleaned fuel response s =
      if s.streaming
      then some response
      else (strip_annotations desk.theme.warning desk.theme.info fuel response >>= λ stripped.
          strip_exec_annotations desk.theme.warning fuel stripped)

  unfoldable pub handle_response : ℕ → Text → ReplState desk → Option (Bool × ReplState desk)
  handle_response fuel response s = do
    actions ← parse_actions response
    if not (has_annotations actions)
        then some (false, show_answer response s)
        else cleaned fuel response s >>= λ text. some (handle_actions actions (show_answer text s))
