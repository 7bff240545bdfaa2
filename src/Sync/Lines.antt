-- ===== src/Sync/Lines.antt =====
-- src/sync/sync_annotations.cpp: what `<str_replace>`, `<add_line>` and `<delete_line>` do to the
-- content of a file.
use llama_cli.Base.Int.{ℤ, pos, negsuc, decrement}
use llama_cli.Json.Numbers.{max_int}
use llama_cli.Base.{
  ℕ, suc, ◌+◌, ◌==◌, true, false, Option, none, some, List, [], ◌∷◌, ◌++◌, ltb, if◌then◌else◌,
  length, take, drop, Text, text_eq, find,
}

-- the first occurrence is replaced; `none` if there is none
unfoldable pub replace_first : Text → Text → Text → Option Text
replace_first content old_str new_str = elim (find old_str content) [
  | none ↦ none
  | some at ↦ some (take at content ++ (new_str ++ drop (at + length old_str) content))
]

-- `line_number - 1` as an `int`: below the least one it wraps around to the greatest
abbrev pub index_before : ℤ → ℤ
index_before (pos n) = decrement (pos n)
index_before (negsuc k) = if k == max_int then pos max_int else negsuc (suc k)

-- the index, held in [0, lines.size()]
unfoldable pub clamp_index : ℤ → ℕ → ℕ
clamp_index n size = elim (index_before n) [ negsuc k ↦ 0 | pos i ↦ if ltb size i then size else i ]

unfoldable pub insert_line : List Text → ℤ → Text → List Text
unfolding clamp_index
insert_line lines n content =
    let i = clamp_index n (length lines) in take i lines ++ (content ∷ drop i lines)

-- the first line that equals `content` is erased; `none` if there is none
unfoldable pub erase_line : List Text → Text → Option (List Text)
erase_line [] content = none
erase_line (line ∷ lines) content = elim (text_eq line content) [
  | true ↦ some lines
  | false ↦ elim (erase_line lines content) [ none ↦ none | some rest ↦ some (line ∷ rest) ]
]

-- every line is written with a newline behind it
unfoldable pub unlines : List Text → Text
unlines [] = []
unlines (line ∷ lines) = line ++ (b'\n' ∷ unlines lines)
