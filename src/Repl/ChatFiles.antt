-- ===== src/Repl/ChatFiles.antt =====
-- src/repl/repl_commands.cpp: `/chat`, with the files of conversations. `none` is fuel that does not suffice.
use llama_cli.Repl.Console.{Desk}
use llama_cli.Repl.Chats.{save_chat, load_chat}
use llama_cli.Repl.Panel.{Outside, Panel, say, first_word, behind_word}
use llama_cli.Base.{
  ℕ, ◌-◌, Bool, not, ◌&&◌, Option, none, some, List, [], ◌∷◌, ◌++◌, ltb, if◌then◌else◌, ◌>>=◌,
  length, take, drop, Text, codes, is_empty, text_eq,
}

module _ (desk : Desk) (outside : Outside desk) where
  open desk use {read, write, to_string}
  open outside use {make_dir, remove, entries, chat_dir}

  unfoldable pub chat_path : Text → Text
  chat_path name = chat_dir ++ (name ++ codes ".json")

  abbrev pub count_text : Text → ℕ → Text
  count_text name count = name ++ (codes " (" ++ (to_string count ++ codes " messages)]\n"))

  unfoldable pub chat_save : Text → Panel desk → Panel desk
  chat_save name p = elim (write p.state (chat_path name) (save_chat p.history)) [
    | none ↦ say desk p (codes "[error: cannot write to " ++ (chat_path name ++ codes "]\n"))
    | some state ↦
        say desk (record p { state = state })
          (codes "[chat saved: " ++ count_text name (length p.history))
  ]

  unfoldable pub chat_load : Text → Panel desk → Option (Panel desk)
  chat_load name p = elim (read p.state (chat_path name)) [
    | none ↦ some (say desk p (codes "[chat not found: " ++ (name ++ codes "]\n")))
    | some json ↦ do
      history ← load_chat json
      some (
          say desk (record p { history = history })
            (codes "[chat loaded: " ++ count_text name (length history)))
  ]

  unfoldable pub chat_names : List (Text × Bool) → Text
  chat_names [] = []
  chat_names ((name, is_dir) ∷ names) =
      (if ltb 5 (length name) && text_eq (drop (length name - 5) name) (codes ".json")
        then codes "  " ++ (take (length name - 5) name ++ codes "\n")
        else [])
      ++ chat_names names

  unfoldable pub chat_list : Panel desk → Panel desk
  chat_list p = elim (entries p.state chat_dir) [
    | none ↦ p
    | some names ↦
        say desk p
          (if is_empty (chat_names names) then codes "  (no saved chats)\n" else chat_names names)
  ]

  unfoldable pub chat_delete : Text → Panel desk → Panel desk
  chat_delete name p = elim (remove p.state (chat_path name)) [
    | none ↦ say desk p (codes "[chat not found: " ++ (name ++ codes "]\n"))
    | some state ↦
        say desk (record p { state = state }) (codes "[chat deleted: " ++ (name ++ codes "]\n"))
  ]

  unfoldable pub handle_chat : Text → Panel desk → Option (Panel desk)
  handle_chat arg p₀ =
      let sub = first_word arg in
      let name = behind_word arg in
      let p = record p₀ { state = make_dir p₀.state chat_dir } in
      if text_eq sub (codes "save") && not (is_empty name)
      then some (chat_save name p)
      else if text_eq sub (codes "load") && not (is_empty name)
      then chat_load name p
      else if text_eq sub (codes "list")
      then some (chat_list p)
      else if text_eq sub (codes "delete") && not (is_empty name)
      then some (chat_delete name p)
      else some (
          say desk p (
            codes "Usage: /chat save <name>, /chat load <name>, /chat list, /chat delete <name>\n"))
