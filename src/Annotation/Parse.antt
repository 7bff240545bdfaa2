-- ===== src/Annotation/Parse.antt =====
-- src/annotation/annotation.cpp: the `parse_*_annotations` functions. Each is the scanning loop of
-- `Base.Collect` over a step of its own, with a round for each byte and one more.
use llama_cli.Base.Int.{ℤ, pos}
use llama_cli.Base.Collect.{collect}
use llama_cli.Annotation.Block.{attr, find_block, child_content}
use llama_cli.Annotation.Numbers.{stoi}
use llama_cli.Annotation.Actions.{
  WriteAction, StrReplaceAction, ReadAction, SearchAction, AddLineAction, DeleteLineAction,
  DelegateAction,
}
use llama_cli.Base.{
  ℕ, ◌+◌, ◌-◌, ◌&&◌, ◌||◌, Option, none, some, List, [], ◌∷◌, ◌==◌, if◌then◌else◌, ◌>>=◌, length,
  take, drop, Text, codes, is_empty, substr, find_from,
}

abbrev pub scan {ℓ} : {A : Type ℓ} → (Text → ℕ → Option (ℕ × List A)) → Text → Option (List A)
scan step text = collect (step text) (length text + 1) 0

-- `if (!path.empty()) actions.push_back(…)`
abbrev pub unless_empty {ℓ κ} : {A : Type ℓ} {B : Type κ} → List A → B → List B
unless_empty [] action = []
unless_empty (x ∷ xs) action = action ∷ []

unfoldable pub write_step : Text → ℕ → Option (ℕ × List WriteAction)
write_step text at = find_block text (codes "write") at >>= λ b.
    let path = attr b.opening (codes "file") in
    some (b.next, unless_empty path (record { path = path; content = b.content }))

unfoldable pub parse_write_annotations : Text → Option (List WriteAction)
parse_write_annotations = scan write_step

unfoldable pub str_replace_step : Text → ℕ → Option (ℕ × List StrReplaceAction)
str_replace_step text at = find_block text (codes "str_replace") at >>= λ b.
    let path = attr b.opening (codes "path") in
    some (
      b.next,
      unless_empty path (record {
        path = path;
        old_str = child_content b.content (codes "old");
        new_str = child_content b.content (codes "new");
      }),
    )

unfoldable pub parse_str_replace_annotations : Text → Option (List StrReplaceAction)
parse_str_replace_annotations = scan str_replace_step

-- a tag from its opening bytes to the first `>`: the position behind it, and its text
unfoldable pub next_tag : Text → Text → ℕ → Option (ℕ × Text)
next_tag opening text at = do
  start ← find_from opening text at
  tag_end ← find_from (codes ">") text start
  some (tag_end + 1, substr text start (tag_end - start + 1))

-- The two assignments of the `try` block: what the first one wrote stays when the second throws.
unfoldable pub line_range : Text → ℤ × ℤ
line_range lines = elim (find_from (codes "-") lines 0) [
  | none ↦ (pos 0, pos 0)
  | some dash ↦ elim (stoi (take dash lines)) [
    | none ↦ (pos 0, pos 0)
    | some from ↦ elim (stoi (drop (dash + 1) lines)) [
      | none ↦ (from, pos 0)
      | some to ↦ (from, to)
    ]
  ]
]

unfoldable pub read_action : Text → List ReadAction
read_action tag =
    let path = attr tag (codes "path") in
    let range = line_range (attr tag (codes "lines")) in
    unless_empty path (record {
      path = path;
      from_line = range.0;
      to_line = range.1;
      search = attr tag (codes "search");
    })

unfoldable pub read_step : Text → ℕ → Option (ℕ × List ReadAction)
read_step text at = next_tag (codes "<read ") text at >>= λ t. some (t.0, read_action t.1)

unfoldable pub parse_read_annotations : Text → Option (List ReadAction)
parse_read_annotations = scan read_step

unfoldable pub search_step : Text → ℕ → Option (ℕ × List SearchAction)
search_step text at = find_block text (codes "search") at >>= λ b.
    some (b.next, unless_empty b.content (record { query = b.content }))

unfoldable pub parse_search_annotations : Text → Option (List SearchAction)
parse_search_annotations = scan search_step

unfoldable pub add_line_action : Text → List AddLineAction
add_line_action tag =
    let path = attr tag (codes "path") in
    let number = attr tag (codes "line_number") in
    if is_empty path || is_empty number then [] else elim (stoi number) [
      | none ↦ []
      | some n ↦ record { path = path; line_number = n; content = attr tag (codes "content") } ∷ []
    ]

unfoldable pub add_line_step : Text → ℕ → Option (ℕ × List AddLineAction)
add_line_step text at =
    next_tag (codes "<add_line ") text at >>= λ t. some (t.0, add_line_action t.1)

unfoldable pub parse_add_line_annotations : Text → Option (List AddLineAction)
parse_add_line_annotations = scan add_line_step

unfoldable pub delete_line_action : Text → List DeleteLineAction
delete_line_action tag =
    let path = attr tag (codes "path") in
    let content = attr tag (codes "content") in
    if is_empty path || is_empty content then [] else record { path = path; content = content } ∷ []

unfoldable pub delete_line_step : Text → ℕ → Option (ℕ × List DeleteLineAction)
delete_line_step text at =
    next_tag (codes "<delete_line ") text at >>= λ t. some (t.0, delete_line_action t.1)

unfoldable pub parse_delete_line_annotations : Text → Option (List DeleteLineAction)
parse_delete_line_annotations = scan delete_line_step

-- the two loops that trim newlines
unfoldable pub trim_front : Text → Text
trim_front [] = []
trim_front (c ∷ s) = if c == b'\n' then trim_front s else c ∷ s

unfoldable pub trim_back : Text → Text
trim_back [] = []
trim_back (c ∷ s) = let rest = trim_back s in if is_empty rest && c == b'\n' then [] else c ∷ rest

unfoldable pub delegate_step : Text → ℕ → Option (ℕ × List DelegateAction)
delegate_step text at = do
  start ← find_from (codes "<delegate") text at
  tag_end ← find_from (codes ">") text start
  close ← find_from (codes "</delegate>") text tag_end
  let tag = substr text start (tag_end - start + 1)
  let prompt = trim_back (trim_front (substr text (tag_end + 1) (close - tag_end - 1)))
  some (
    close + length (codes "</delegate>"),
    unless_empty prompt (record { role = attr tag (codes "type"); prompt = prompt }),
  )

unfoldable pub parse_delegate_annotations : Text → Option (List DelegateAction)
parse_delegate_annotations = scan delegate_step
