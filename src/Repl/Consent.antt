-- ===== src/Repl/Consent.antt =====
-- What the user has agreed to: the invariant of the trace, through the questions.
use llama_cli.Repl.Console.{
  Desk, Subject, to_write, to_replace, to_run, to_delegate, Reply, yes_reply, no_reply, show_reply,
  trust_reply, copy_reply, help_reply, other_reply, Act, asked, wrote, ran, started, ReplState,
  print, noted, answer_of, prompted,
}
use llama_cli.Repl.Confirm.{
  Outcome, go, declined, copied, end_of_input, write_reply, other_tool_reply, to_clipboard,
  on_write_reply, on_tool_reply, ask_write, ask_tool, answered,
}
use llama_cli.Repl.Apply.{backup_path}
use llama_cli.Base.{
  ◌≡◌, refl, sym, ap, ◌∙◌, ◌⊎◌, inl, inr, Bool, true, false, ◌||◌, Option, none, some, List, [],
  ◌∷◌, arith, Option-cases, Text,
}

-- the last question with its answer
abbrev pub last_asked : List Act → Option (Subject × Reply)
last_asked [] = none
last_asked (asked subject reply ∷ t) = some (subject, reply)
last_asked (wrote subject path content ∷ t) = last_asked t
last_asked (ran cmd ∷ t) = last_asked t
last_asked (started task ∷ t) = last_asked t

abbrev is_trust : Reply → Bool
is_trust trust_reply = true
is_trust yes_reply = false
is_trust no_reply = false
is_trust show_reply = false
is_trust copy_reply = false
is_trust help_reply = false
is_trust other_reply = false

-- Has the user answered "trust" to some question?
abbrev pub has_trust : List Act → Bool
has_trust [] = false
has_trust (asked subject reply ∷ t) = is_trust reply || has_trust t
has_trust (wrote subject path content ∷ t) = has_trust t
has_trust (ran cmd ∷ t) = has_trust t
has_trust (started task ∷ t) = has_trust t

abbrev pub IsWrite : Subject → Type 0
IsWrite (to_write path) = Unit
IsWrite (to_replace path) = ⊥
IsWrite (to_run cmd) = ⊥
IsWrite (to_delegate task) = ⊥

-- A change to a file touches the file that was asked about, or its backup.
abbrev pub Covers : Subject → Text → Type 0
Covers (to_write file) path = (path ≡ file) ⊎ (path ≡ backup_path file)
Covers (to_replace file) path = (path ≡ file) ⊎ (path ≡ backup_path file)
Covers (to_run cmd) path = ⊥
Covers (to_delegate task) path = ⊥

abbrev pub is_go : Outcome → Bool
is_go go = true
is_go declined = false
is_go copied = false
is_go end_of_input = false

has_trust_later : (a : Act) (t : List Act) → has_trust t ≡ true → has_trust (a ∷ t) ≡ true
has_trust_later (asked subject reply) t h = ground arith
has_trust_later (wrote subject path content) t h = h
has_trust_later (ran cmd) t h = h
has_trust_later (started task) t h = h

-- `start` is trust mode at the beginning, `auto` the setting that confirms writes.
module _ (start auto : Bool) where
  abbrev pub Permitted : Subject → List Act → Type 0
  Permitted subject t =
      (start ≡ true)
      ⊎ (has_trust t ≡ true)
      ⊎ (last_asked t ≡ some (subject, yes_reply))
      ⊎ ((auto ≡ true) × IsWrite subject)

  -- Each change, command and task was permitted by what the user had answered before.
  abbrev pub Consented : List Act → Type 0
  Consented [] = Unit
  Consented (asked subject reply ∷ t) = Consented t
  Consented (wrote subject path content ∷ t) =
      Permitted subject t × Covers subject path × Consented t
  Consented (ran cmd ∷ t) = Permitted (to_run cmd) t × Consented t
  Consented (started task ∷ t) = Permitted (to_delegate task) t × Consented t

  -- `live` is the streaming mode, which nothing changes.
  module _ (desk : Desk) (live : Bool) where
    pub record Inv (s : ReplState desk) : Type 0 where
      pub consented : Consented s.trace
      pub trusted : s.trust ≡ true → (start ≡ true) ⊎ (has_trust s.trace ≡ true)
      pub confirming : s.cfg.auto_confirm_write ≡ auto
      pub mode : s.streaming ≡ live

    -- Only these fields matter.
    pub same-Inv :
        {s t : ReplState desk}
        → t.trace ≡ s.trace
        → t.trust ≡ s.trust
        → t.cfg ≡ s.cfg
        → t.streaming ≡ s.streaming
        → Inv s
        → Inv t
    same-Inv {s} {t} e₁ e₂ e₃ e₄ h = record {
      consented = rw e₁ h.consented;
      trusted = λ trust. rw e₁ (h.trusted (sym e₂ ∙ trust));
      confirming = ap (λ cfg. cfg.auto_confirm_write) e₃ ∙ h.confirming;
      mode = e₄ ∙ h.mode;
    }

    pub noted-Inv :
        (s : ReplState desk) (a : Act) → Consented (a ∷ s.trace) → Inv s → Inv (noted desk s a)
    noted-Inv s a c h = record {
      consented = c;
      trusted = λ trust. elim (h.trusted trust) [
        | inl e ↦ inl e
        | inr e ↦ inr (has_trust_later a s.trace e)
      ];
      confirming = h.confirming;
      mode = h.mode;
    }

    -- in trust mode everything is permitted
    pub trust-Permitted :
        (s : ReplState desk) (subject : Subject)
        → Inv s
        → s.trust ≡ true
        → Permitted subject s.trace
    trust-Permitted s subject h e = elim (h.trusted e) [ inl b ↦ inl b | inr b ↦ inr (inl b) ]

    to_clipboard-Inv : (text : Text) (s : ReplState desk) → Inv s → Inv (to_clipboard desk text s)
    unfolding to_clipboard
    to_clipboard-Inv text s h = elim (Option-cases (desk.copy s.state text)) [
      | inl e ↦ rw (e, to_clipboard) h
      | inr (state, e) ↦ rw (e, to_clipboard) (same-Inv refl refl refl refl h)
    ]

    -- how a question leaves the state: permitted if the action goes on
    abbrev pub Asked : Subject → Bool → ReplState desk → Type 0
    Asked subject goes s = Inv s × (goes ≡ true → Permitted subject s.trace)

    -- what a question keeps when it is put again
    abbrev pub AsksAgain : Subject → (ReplState desk → Bool × ReplState desk) → Type 0
    AsksAgain subject ask = (s : ReplState desk) → Inv s → Asked subject (ask s).0 (ask s).1

    pub print-Inv : (s : ReplState desk) (text : Text) → Inv s → Inv (print desk s text)
    print-Inv s text h = same-Inv refl refl refl refl h

    refused : {subject : Subject} {s : ReplState desk} → Inv s → Asked subject false s
    refused h = (h, λ e. cc)

    answered-Inv :
        (subject : Subject) (reply : Reply) (lines : List Text) (prompt : Text) (s : ReplState desk)
        → Inv s
        → Inv (answered desk subject reply lines prompt s)
    unfolding prompted
    answered-Inv subject reply lines prompt s h =
        noted-Inv _ (asked subject reply) h.consented (same-Inv refl refl refl refl h)

    -- a yes to the last question permits
    agreed :
        (subject : Subject) (s : ReplState desk)
        → Inv s
        → last_asked s.trace ≡ some (subject, yes_reply)
        → Asked subject true s
    agreed subject s h e = (h, λ _. inr (inr (inl e)))

    -- so does trust
    trusting :
        (subject : Subject) (s : ReplState desk)
        → Inv s
        → has_trust s.trace ≡ true
        → Asked subject true (record s { trust = true })
    trusting subject s h e = (
      record {
        consented = h.consented;
        trusted = λ _. inr e;
        confirming = h.confirming;
        mode = h.mode;
      },
      λ _. inr (inl e),
    )

    on_write_reply-Asked :
        (path content : Text) (reply : Reply) (ask : ReplState desk → Bool × ReplState desk)
        → AsksAgain (to_write path) ask
        → (s : ReplState desk) → Inv s
        → last_asked s.trace ≡ some (to_write path, reply)
        → (is_trust reply ≡ true → has_trust s.trace ≡ true)
        → (let r = on_write_reply desk content reply ask s in Asked (to_write path) r.0 r.1)
    unfolding on_write_reply
    on_write_reply-Asked path content yes_reply ask again s h last trust =
        agreed (to_write path) s h last
    on_write_reply-Asked path content no_reply ask again s h last trust = refused h
    on_write_reply-Asked path content show_reply ask again s h last trust =
        again _ (print-Inv s _ h)
    on_write_reply-Asked path content trust_reply ask again s h last trust =
        trusting (to_write path) s h (trust refl)
    on_write_reply-Asked path content copy_reply ask again s h last trust =
        again _ (to_clipboard-Inv content s h)
    on_write_reply-Asked path content help_reply ask again s h last trust =
        again _ (print-Inv s _ h)
    on_write_reply-Asked path content other_reply ask again s h last trust = again s h

    pub ask_write-Asked :
        (path content prompt : Text) (lines : List Text)
        → AsksAgain (to_write path) (ask_write desk path content prompt lines)
    unfolding ask_write prompted
    ask_write-Asked path content prompt [] s h = refused (same-Inv refl refl refl refl h)
    ask_write-Asked path content prompt (line ∷ lines) s h =
        let reply = write_reply (answer_of desk s line) in
        on_write_reply-Asked path content reply (ask_write desk path content prompt lines)
          (ask_write-Asked path content prompt lines)
          (answered desk (to_write path) reply lines prompt s)
          (answered-Inv (to_write path) reply lines prompt s h) refl (λ e. ground arith)

    abbrev pub ToolAsksAgain : Subject → (ReplState desk → Outcome × ReplState desk) → Type 0
    ToolAsksAgain subject ask =
        (s : ReplState desk) → Inv s → Asked subject (is_go (ask s).0) (ask s).1

    on_tool_reply-Asked :
        (subject : Subject) (copy_text help : Text) (reply : Reply)
        (ask : ReplState desk → Outcome × ReplState desk)
        → ToolAsksAgain subject ask
        → (s : ReplState desk) → Inv s
        → last_asked s.trace ≡ some (subject, reply)
        → (is_trust reply ≡ true → has_trust s.trace ≡ true)
        → (let r = on_tool_reply desk copy_text help reply ask s in Asked subject (is_go r.0) r.1)
    unfolding on_tool_reply
    on_tool_reply-Asked subject copy_text help yes_reply ask again s h last trust =
        agreed subject s h last
    on_tool_reply-Asked subject copy_text help trust_reply ask again s h last trust =
        trusting subject s h (trust refl)
    on_tool_reply-Asked subject copy_text help copy_reply ask again s h last trust =
        refused (to_clipboard-Inv copy_text s h)
    on_tool_reply-Asked subject copy_text help help_reply ask again s h last trust =
        again _ (print-Inv s _ h)
    on_tool_reply-Asked subject copy_text help no_reply ask again s h last trust =
        refused (print-Inv s _ h)
    on_tool_reply-Asked subject copy_text help show_reply ask again s h last trust =
        refused (print-Inv s _ h)
    on_tool_reply-Asked subject copy_text help other_reply ask again s h last trust =
        refused (print-Inv s _ h)

    pub ask_tool-Asked :
        (subject : Subject) (copy_text help prompt : Text) (lines : List Text)
        → ToolAsksAgain subject (ask_tool desk subject copy_text help prompt lines)
    unfolding ask_tool prompted
    ask_tool-Asked subject copy_text help prompt [] s h = refused (same-Inv refl refl refl refl h)
    ask_tool-Asked subject copy_text help prompt (line ∷ lines) s h =
        let reply = other_tool_reply (answer_of desk s line) in
        on_tool_reply-Asked subject copy_text help reply
          (ask_tool desk subject copy_text help prompt lines)
          (ask_tool-Asked subject copy_text help prompt lines)
          (answered desk subject reply lines prompt s) (answered-Inv subject reply lines prompt s h)
          refl (λ e. ground arith)
