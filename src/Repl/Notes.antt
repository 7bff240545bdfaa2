-- ===== src/Repl/Notes.antt =====
-- src/repl/repl_commands.cpp: `/mem`, `/pref` and `/rate`, and the helpers for their files. A file that
-- cannot be opened is left alone without a word, as in the code; the log is left out.
use llama_cli.Base.Int.{ℤ, pos, negsuc}
use llama_cli.Base.Words.{rfind}
use llama_cli.Annotation.Numbers.{stoi}
use llama_cli.Provider.Message.{Message}
use llama_cli.Repl.Console.{Desk}
use llama_cli.Repl.Panel.{Outside, Panel, say, first_word, behind_word}
use llama_cli.Base.{
  ℕ, zero, suc, ◌+◌, Bool, false, not, ◌&&◌, ◌||◌, Option, none, some, List, [], ◌∷◌, ◌++◌, ltb,
  ◌==◌, if◌then◌else◌, length, take, drop, Text, codes, is_empty, text_eq, find,
}

-- the words in which the two lists differ
pub record Wording : Type 0 where
  pub none_stored : Text
  pub stored : Text
  pub cleared : Text
  pub usage : Text

abbrev pub memory_wording : Wording
memory_wording = record {
  none_stored = codes "[no memories stored]\n";
  stored = codes "[remembered: ";
  cleared = codes "[memory cleared]\n";
  usage = codes "Usage: /mem, /mem add <fact>, /mem clear\n";
}

abbrev pub preference_wording : Wording
preference_wording = record {
  none_stored = codes "[no preferences stored]\n";
  stored = codes "[preference saved: ";
  cleared = codes "[preferences cleared]\n";
  usage = codes "Usage: /pref, /pref add <preference>, /pref clear\n";
}

abbrev pub is_assistant : Message → Bool
is_assistant m = text_eq m.role (codes "assistant")

abbrev pub is_rated : Message → Bool
is_rated m = is_assistant m && not (is_empty m.rating)

-- the index of the n-th answer, from `i` and with `count` answers before
unfoldable pub answer_index : ℤ → ℕ → ℕ → List Message → Option ℕ
answer_index n count i [] = none
answer_index n count i (m ∷ history) =
    let here = is_assistant m in
    let count' = if here then suc count else count in
    let later = answer_index n count' (suc i) history in
    if here && (elim n [ pos k ↦ k == count' | negsuc k ↦ false ]) then some i else later

unfoldable pub rating_of : Text → Option Text
rating_of t =
    if text_eq t (codes "+")
      || (text_eq t (codes "y") || (text_eq t (codes "yes") || text_eq t (codes "good")))
    then some (codes "positive")
    else if text_eq t (codes "-")
        || (text_eq t (codes "n") || (text_eq t (codes "no") || text_eq t (codes "bad")))
    then some (codes "negative")
    else if text_eq t (codes "s") || text_eq t (codes "save")
    then some (codes "saved")
    else none

-- the message at an index gets the rating
unfoldable pub put_rating : ℕ → Text → List Message → List Message
put_rating i rating [] = []
put_rating zero rating (m ∷ history) = record m { rating = rating } ∷ history
put_rating (suc i) rating (m ∷ history) = m ∷ put_rating i rating history

module _ (desk : Desk) (outside : Outside desk) where
  open desk use {State, read, write, to_string}

  unfoldable pub read_file_or_empty : State → Text → Text
  read_file_or_empty state path = elim (read state path) [ none ↦ [] | some content ↦ content ]

  unfoldable pub ensure_parent_dir : State → Text → State
  ensure_parent_dir state path = elim (rfind b'/' path) [
    | none ↦ state
    | some slash ↦ outside.make_dir state (take slash path)
  ]

  -- `- line`, behind what the file has
  unfoldable pub append_line : State → Text → Text → State
  append_line state path line =
      let state₁ = ensure_parent_dir state path in
      let old = read_file_or_empty state₁ path in
      elim (write state₁ path (old ++ (codes "- " ++ (line ++ codes "\n")))) [
        | none ↦ state₁
        | some state₂ ↦ state₂
      ]

  unfoldable pub handle_notes : Wording → Text → Text → Panel desk → Panel desk
  handle_notes words path arg p =
      let content = read_file_or_empty p.state path in
      if is_empty arg
      then say desk p (if is_empty content then words.none_stored else content)
      else if text_eq (first_word arg) (codes "add") && not (is_empty (behind_word arg))
      then say desk (record p { state = append_line p.state path (behind_word arg) })
          (words.stored ++ (behind_word arg ++ codes "]\n"))
      else if text_eq (first_word arg) (codes "clear")
      then say desk
          (record p {
            state = elim (write p.state path []) [ none ↦ p.state | some state₁ ↦ state₁ ];
          })
          words.cleared
      else say desk p words.usage

  unfoldable pub handle_mem : Text → Panel desk → Panel desk
  handle_mem arg p = handle_notes memory_wording p.extras.config.memory_path arg p

  unfoldable pub handle_pref : Text → Panel desk → Panel desk
  handle_pref arg p = handle_notes preference_wording p.extras.config.preferences_path arg p

  unfoldable pub rated_lines : ℕ → List Message → Text
  rated_lines count [] = []
  rated_lines count (m ∷ history) =
      let shown =
        to_string (suc count)
        ++ (codes ". [" ++ (m.rating ++ (codes "] " ++ (take 60 m.content ++ codes "...\n")))) in
      (if is_rated m then shown else [])
      ++ rated_lines (if is_rated m then suc count else count) history

  -- `target_idx`: none is an index that is no number, which `std::stoi` throws at
  unfoldable pub target_index : Text → Panel desk → Option ℤ
  target_index index p =
      if text_eq index (codes "last") then some p.last_assistant_idx else elim (stoi index) [
        | none ↦ none
        | some n ↦ elim (answer_index n 0 0 p.history) [
          | none ↦ some (negsuc 0)
          | some i ↦ some (pos i)
        ]
      ]

  unfoldable pub rate_message : ℕ → Text → Panel desk → Panel desk
  rate_message i t p = elim (rating_of t) [
    | none ↦ say desk p (codes "Invalid rating. Use: + (good), - (bad), s (save)\n")
    | some rating ↦
        say desk (record p { history = put_rating i rating p.history })
          (codes "[rated: " ++ (rating ++ codes "]\n"))
  ]

  unfoldable pub rate_target : ℤ → Text → Panel desk → Panel desk
  rate_target (negsuc n) t p = say desk p (codes "Response not found.\n")
  rate_target (pos i) t p =
      if ltb i (length p.history)
      then rate_message i t p
      else say desk p (codes "Response not found.\n")

  unfoldable pub rate_indexed : Text → Text → Panel desk → Panel desk
  rate_indexed index t p = elim (target_index index p) [
    | none ↦ say desk p (codes "Invalid index. Use 'last' or a number.\n")
    | some target ↦ rate_target target t p
  ]

  unfoldable pub handle_rate : Text → Panel desk → Panel desk
  handle_rate arg p =
      if text_eq arg (codes "list")
      then (let lines = rated_lines 0 p.history in
          say desk p (if is_empty lines then codes "[no rated responses]\n" else lines))
      else elim (find (codes " ") arg) [
        | none ↦ say desk p (codes "Usage: /rate last +/-, /rate <n> +/-, /rate list\n")
        | some space ↦ rate_indexed (take space arg) (drop (space + 1) arg) p
      ]
