-- ===== src/Repl/Chats.antt =====
-- src/repl/repl_commands.cpp: the files of `/chat save` and `/chat load`. The reader is a loop over what
-- is left of the file, with the byte before it; the fuel is a round for each byte and one more.
use llama_cli.Provider.Message.{Message}
use llama_cli.Repl.Chat.{message}
use llama_cli.Base.{
  ℕ, zero, suc, ◌+◌, Bool, true, false, not, ◌&&◌, Option, none, some, List, [], ◌∷◌, ◌++◌, ◌==◌,
  if◌then◌else◌, ◌>>=◌, length, take, drop, Text, codes, find,
}

-- a byte of the content as it is saved
unfoldable pub chat_byte : ℕ → Text
chat_byte c =
    if c == b'"'
    then b'\\' ∷ b'"' ∷ []
    else if c == b'\\'
    then b'\\' ∷ b'\\' ∷ []
    else if c == b'\n'
    then b'\\' ∷ b'n' ∷ []
    else c ∷ []

unfoldable pub chat_escape : Text → Text
chat_escape [] = []
chat_escape (c ∷ s) = chat_byte c ++ chat_escape s

abbrev pub chat_role : Text
chat_role = codes "\"role\":\""

abbrev pub chat_key : Text
chat_key = codes "\"content\":\""

unfoldable pub chat_object : Message → Text
chat_object m =
    codes "{"
    ++ (chat_role
        ++ (m.role ++ (codes "\"," ++ (chat_key ++ (chat_escape m.content ++ codes "\"}")))))

-- a comma behind each but the last
abbrev pub chat_end : List Message → Text
chat_end [] = codes "\n"
chat_end (m ∷ history) = codes ",\n"

unfoldable pub chat_lines : List Message → Text
chat_lines [] = []
chat_lines (m ∷ history) = codes "  " ++ (chat_object m ++ (chat_end history ++ chat_lines history))

unfoldable pub save_chat : List Message → Text
save_chat history = codes "[\n" ++ (chat_lines history ++ codes "]\n")

-- what a backslash and this byte stand for, if they are read as one
abbrev pub chat_unescape : ℕ → Option ℕ
chat_unescape d =
    if d == b'n'
    then some b'\n'
    else if d == b'"'
    then some b'"'
    else if d == b'\\'
    then some b'\\'
    else none

abbrev pub in_front : ℕ → Text × Text → Text × Text
in_front c (content, rest) = (c ∷ content, rest)

-- a quote that the byte before it does not escape
abbrev pub is_close : ℕ → ℕ → Bool
is_close before c = c == b'"' && not (before == b'\\')

-- the content up to the closing quote, and what is left from there
unfoldable pub chat_content : ℕ → Text → Text × Text
chat_content before [] = ([], [])
chat_content before (c ∷ []) = if is_close before c then ([], c ∷ []) else (c ∷ [], [])
chat_content before (c ∷ d ∷ s) = elim (is_close before c) [
  | true ↦ ([], c ∷ d ∷ s)
  | false ↦ elim (if c == b'\\' then chat_unescape d else none) [
    | some e ↦ in_front e (chat_content d s)
    | none ↦ in_front c (chat_content c (d ∷ s))
  ]
]

-- the text up to the next quote, all of it without one
unfoldable pub up_to_quote : Text → Text
up_to_quote json = elim (find (codes "\"") json) [ none ↦ json | some end ↦ take end json ]

-- a round of the loop: a message and what is left
unfoldable pub chat_step : Text → Option (Message × Text)
chat_step json = do
  at ← find chat_role json
  key ← find chat_key (drop (at + 8) json)
  let parsed = chat_content b'"' (drop (key + 11) (drop (at + 8) json))
  some (message (up_to_quote (drop (at + 8) json)) parsed.0, parsed.1)

unfoldable pub load_chat_from : ℕ → Text → Option (List Message)
load_chat_from zero json = none
load_chat_from (suc fuel) json = elim (chat_step json) [
  | none ↦ some []
  | some (m, rest) ↦ load_chat_from fuel rest >>= λ later. some (m ∷ later)
]

unfoldable pub load_chat : Text → Option (List Message)
load_chat json = load_chat_from (length json + 1) json
