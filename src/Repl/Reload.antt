-- ===== src/Repl/Reload.antt =====
-- What `/chat load` of src/repl/repl_commands.cpp makes of a file that `/chat save` wrote, and of any other.
use llama_cli.Provider.Message.{Message}
use llama_cli.Repl.Chat.{message}
use llama_cli.Base.Search.{
  find-append_Lacks, find-append_clear, find_self, is_clear, shift, take_front, drop_front,
  find_sound,
}
use llama_cli.Repl.Chats.{
  chat_byte, chat_escape, chat_role, chat_key, chat_object, chat_end, chat_lines, save_chat,
  chat_unescape, in_front, chat_content, up_to_quote, chat_step, load_chat_from, load_chat,
}
use llama_cli.Base.{
  ℕ, zero, suc, ◌+◌, ◌≤◌, ◌<◌, ◌≡◌, refl, sym, ap, ◌∙◌, ◌≢◌, ◌⊎◌, inl, inr, true, none, some, List,
  [], ◌∷◌, ◌++◌, append_assoc, arith, ◌==◌, ne→beq, beq→eq, Bool-cases, Option-cases, length, drop,
  length-append, length-drop, All, Text, codes, starts_with, find, Lacks,
}

-- the text behind this byte does not end in a backslash
abbrev pub EndsPlain : ℕ → Text → Type 0
EndsPlain before [] = before ≢ b'\\'
EndsPlain before (c ∷ s) = EndsPlain c s

abbrev pub IsReloadable : Message → Type 0
IsReloadable m = Lacks b'"' m.role × EndsPlain b'"' m.content

abbrev pub texts_only : List Message → List Message
texts_only [] = []
texts_only (m ∷ history) = message m.role m.content ∷ texts_only history

EndsPlain-n : (s : Text) → EndsPlain b'\n' s → EndsPlain b'n' s
EndsPlain-n [] h = omega arith
EndsPlain-n (c ∷ s) h = h

content_plain :
    (before c : ℕ) (t : Text)
    → c ≢ b'"'
    → c ≢ b'\\'
    → chat_content before (c ∷ t) ≡ in_front c (chat_content c t)
unfolding chat_content
content_plain before c [] h k = rw (ne→beq c _ h) refl
content_plain before c (d ∷ t) h k = rw (ne→beq c _ h, ne→beq c _ k, chat_content) refl

content_escaped :
    (before d e : ℕ) (t : Text)
    → chat_unescape d ≡ some e
    → chat_content before (b'\\' ∷ d ∷ t) ≡ in_front e (chat_content d t)
unfolding chat_content
content_escaped before d e t h = rw (h, chat_content) refl

content_closed :
    (before : ℕ) (t : Text) → before ≢ b'\\' → chat_content before (b'"' ∷ t) ≡ ([], b'"' ∷ t)
unfolding chat_content
content_closed before [] h = rw (ne→beq before _ h) refl
content_closed before (d ∷ t) h = rw (ne→beq before _ h, chat_content) refl

EndsPlain-same : (c d : ℕ) (s : Text) → c ≡ d → EndsPlain c s → EndsPlain d s
EndsPlain-same c d s e h = rw (← e) h

-- A byte is saved as it is, or behind a backslash as one that stands for it.
byte_cases :
    (c : ℕ)
    → ((chat_byte c ≡ c ∷ []) × (c ≢ b'"') × (c ≢ b'\\'))
      ⊎ ((d : ℕ) × (chat_byte c ≡ b'\\' ∷ d ∷ [])
          × (chat_unescape d ≡ some c)
          × ((s : Text) → EndsPlain c s → EndsPlain d s))
unfolding chat_byte
byte_cases c = elim (Bool-cases (c == b'"')) [
  | inl e ↦
      inr
        (b'"', rw e refl, ap some (sym (beq→eq c _ e)), λ s. EndsPlain-same c b'"' s (beq→eq c _ e))
  | inr e ↦ elim (Bool-cases (c == b'\\')) [
    | inl f ↦ inr (
      b'\\',
      rw (e, f) refl,
      ap some (sym (beq→eq c _ f)),
      λ s. EndsPlain-same c b'\\' s (beq→eq c _ f),
    )
    | inr f ↦ elim (Bool-cases (c == b'\n')) [
      | inl g ↦ inr (
        b'n',
        rw (e, f, g) refl,
        ap some (sym (beq→eq c _ g)),
        λ s h. EndsPlain-n s (EndsPlain-same c b'\n' s (beq→eq c _ g) h),
      )
      | inr g ↦ inl (rw (e, f, g) refl, ground (arith, e), ground (arith, f))
    ]
  ]
]

-- The content is read back up to its closing quote.
content-escape :
    (before : ℕ) (s rest : Text)
    → EndsPlain before s
    → chat_content before (chat_escape s ++ b'"' ∷ rest) ≡ (s, b'"' ∷ rest)
unfolding chat_escape
content-escape before [] rest h = content_closed before rest h
content-escape before (c ∷ s) rest h = elim (byte_cases c) [
  | inl (e, k, l) ↦
      rw (e) (content_plain before c _ k l ∙ ap (in_front c) (content-escape c s rest h))
  | inr (d, e, k, keep) ↦
      rw (e) (content_escaped before d c _ k ∙ ap (in_front c) (content-escape d s rest (keep s h)))
]

module _ (front role content tail : Text) (clear : is_clear chat_role front ≡ true)
    (bare : Lacks b'"' role) (plain : EndsPlain b'"' content) where
  abbrev behind_key : Text
  behind_key = chat_escape content ++ b'"' ∷ tail

  abbrev behind_role : Text
  behind_role = role ++ (codes "\"," ++ (chat_key ++ behind_key))

  abbrev file : Text
  file = front ++ (codes "  {" ++ (chat_role ++ behind_role))

  role_at : find chat_role file ≡ some (length front + 3)
  role_at =
      find-append_clear chat_role front (codes "  {" ++ (chat_role ++ behind_role)) clear
      ∙ ap (shift (length front)) (
          find-append_clear chat_role (codes "  {") (chat_role ++ behind_role) refl
          ∙ ap (shift 3) (find_self chat_role behind_role))

  from_role : drop (length front + 3 + 8) file ≡ behind_role
  from_role =
      let head = front ++ (codes "  {" ++ chat_role) in
      let split : file ≡ head ++ behind_role = simp append_assoc refl in
      ap (drop (length front + 3 + 8)) split
      ∙ drop_front _ head behind_role
          (omega (arith, length-append {0} front (codes "  {" ++ chat_role)))

  quote_at : find (codes "\"") behind_role ≡ some (length role)
  quote_at =
      find-append_Lacks b'"' [] role (codes "\"," ++ (chat_key ++ behind_key)) bare
      ∙ ap (shift (length role)) (find_self (codes "\"") (codes "," ++ (chat_key ++ behind_key)))
      ∙ ap some (omega arith)

  key_at : find chat_key behind_role ≡ some (length role + 2)
  key_at =
      find-append_Lacks b'"' (codes "content\":\"") role (codes "\"," ++ (chat_key ++ behind_key))
        bare
      ∙ ap (shift (length role)) (
          find-append_clear chat_key (codes "\",") (chat_key ++ behind_key) refl
          ∙ ap (shift 2) (find_self chat_key behind_key))

  from_key : drop (length role + 2 + 11) behind_role ≡ behind_key
  from_key =
      let head = role ++ (codes "\"," ++ chat_key) in
      let split : behind_role ≡ head ++ behind_key = simp append_assoc refl in
      ap (drop (length role + 2 + 11)) split
      ∙ drop_front _ head behind_key
          (omega (arith, length-append {0} role (codes "\"," ++ chat_key)))

  role_there : up_to_quote behind_role ≡ role
  unfolding up_to_quote
  role_there =
      rw (quote_at, up_to_quote) (take_front _ role (codes "\"," ++ (chat_key ++ behind_key)) refl)

  -- One object is read, and the loop goes on at its closing quote.
  object_read : chat_step file ≡ some (message role content, b'"' ∷ tail)
  unfolding chat_step
  object_read =
      rw (role_at, chat_step)
        (rw (from_role, key_at, role_there)
          (rw (from_key, content-escape b'"' content tail plain) refl))

end_clear : (history : List Message) → is_clear chat_role (b'"' ∷ b'}' ∷ chat_end history) ≡ true
end_clear [] = refl
end_clear (m ∷ history) = refl

lines_file :
    (front : Text) (m : Message) (history : List Message)
    → front ++ (chat_lines (m ∷ history) ++ codes "]\n")
      ≡ front
        ++ (codes "  {"
            ++ (chat_role
                ++ (m.role
                    ++ (codes "\","
                        ++ (chat_key
                            ++ (chat_escape m.content
                                ++ b'"'
                                  ∷ b'}'
                                  ∷ (chat_end history ++ (chat_lines history ++ codes "]\n"))))))))
unfolding chat_lines chat_object
lines_file front m history = simp append_assoc refl

step_end :
    (front : Text)
    → is_clear chat_role front ≡ true
    → chat_step (front ++ (chat_lines [] ++ codes "]\n")) ≡ none
unfolding chat_step chat_lines find starts_with
step_end front clear = rw (find-append_clear chat_role front (codes "]\n") clear, chat_step) refl

reload_lines :
    (fuel : ℕ) (front : Text) (history : List Message)
    → length history < fuel
    → is_clear chat_role front ≡ true
    → All IsReloadable history
    → load_chat_from fuel (front ++ (chat_lines history ++ codes "]\n")) ≡ some (texts_only history)
unfolding load_chat_from
reload_lines zero front history lt clear h = absurd (omega arith)
reload_lines (suc fuel) front [] lt clear h = rw (step_end front clear, load_chat_from) refl
reload_lines (suc fuel) front (m ∷ history) lt clear ((bare, plain), h) =
    ap (load_chat_from (suc fuel)) (lines_file front m history)
    ∙ rw (object_read front m.role m.content _ clear bare plain, load_chat_from)
        (rw
          (reload_lines fuel (b'"' ∷ b'}' ∷ chat_end history) history (omega arith)
            (end_clear history) h)
          refl)

lines_length : (history : List Message) → length history ≤ length (chat_lines history)
unfolding chat_lines
lines_length [] = omega arith
lines_length (m ∷ history) = omega (
  arith,
  lines_length history,
  length-append {0} (chat_object m) (chat_end history ++ chat_lines history),
  length-append {0} (chat_end history) (chat_lines history),
)

-- A conversation that `/chat save` wrote is read back by `/chat load` with its roles and contents, if no role has a
-- quote and no content ends in a backslash; ratings and images are lost.
pub load_chat-save_chat :
    (history : List Message)
    → All IsReloadable history
    → load_chat (save_chat history) ≡ some (texts_only history)
unfolding load_chat save_chat
load_chat-save_chat history h =
    reload_lines (length (save_chat history) + 1) (codes "[\n") history
      (omega (arith, lines_length history, length-append {0} (chat_lines history) (codes "]\n")))
      refl h

content_rest : (before : ℕ) (s : Text) → length (chat_content before s).1 ≤ length s
unfolding chat_content
content_rest before [] = omega arith
content_rest before (c ∷ []) = ground arith
content_rest before (c ∷ d ∷ s) = ground (arith, content_rest d s, content_rest c (d ∷ s))

step_shorter :
    (json rest : Text) (m : Message) → chat_step json ≡ some (m, rest) → length rest < length json
unfolding chat_step
step_shorter json rest m h = elim (Option-cases (find chat_role json)) [
  | inl e ↦ ground (arith, e, h)
  | inr (at, e) ↦ elim (Option-cases (find chat_key (drop (at + 8) json))) [
    | inl f ↦ ground (arith, e, f, h)
    | inr (key, f) ↦
        let same : (chat_content b'"' (drop (key + 11) (drop (at + 8) json))).1 ≡ rest =
          ground (arith, e, f, h) in
        omega (
          arith,
          ap (λ (t : Text). length t) same,
          (find_sound chat_role json at e).0,
          content_rest b'"' (drop (key + 11) (drop (at + 8) json)),
          length-drop {0} (key + 11) (drop (at + 8) json),
          length-drop {0} (at + 8) json,
        )
  ]
]

load_chat_from_total :
    (fuel : ℕ) (json : Text)
    → length json < fuel
    → (history : List Message) × (load_chat_from fuel json ≡ some history)
unfolding load_chat_from
load_chat_from_total zero json lt = absurd (omega arith)
load_chat_from_total (suc fuel) json lt = elim (Option-cases (chat_step json)) [
  | inl e ↦ ([], rw (e, load_chat_from) refl)
  | inr ((m, rest), e) ↦
      let (later, r) = load_chat_from_total fuel rest (omega (arith, step_shorter json rest m e)) in
      (m ∷ later, rw (e, load_chat_from) (rw r refl))
]

-- `/chat load` ends on every file.
pub load_chat_total : (json : Text) → (history : List Message) × (load_chat json ≡ some history)
unfolding load_chat
load_chat_total json = load_chat_from_total (length json + 1) json (omega arith)
