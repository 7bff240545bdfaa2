-- ===== src/Repl/Files.antt =====
-- src/repl/repl_annotations.cpp: `process_read` and `strip_exec_annotations`.
use Prim.Native.Nat.{max, min}
use llama_cli.Base.Int.{ℤ, pos, negsuc}
use llama_cli.Base.Words.{getlines}
use llama_cli.Annotation.Actions.{ReadAction}
use llama_cli.Annotation.Strip.{splice, rewrite, summary}
use llama_cli.Repl.Console.{Desk, ReplState, show_error}
use llama_cli.Base.{
  ℕ, zero, suc, ◌+◌, ◌-◌, not, Option, none, some, List, [], ◌∷◌, ◌++◌, if◌then◌else◌, ◌>>=◌,
  length, get_or, Text, codes, is_empty, substr, find, find_from,
}

-- `line_number: line`, with the number counted from 1
unfoldable pub numbered_line : (ℕ → Text) → List Text → ℕ → Text
numbered_line to_string lines j =
    to_string (j + 1) ++ (codes ": " ++ (get_or lines j [] ++ codes "\n"))

-- the loop over positions, with its number of rounds
unfoldable pub numbered_lines : (ℕ → Text) → List Text → ℕ → ℕ → Text
numbered_lines to_string lines j zero = []
numbered_lines to_string lines j (suc rounds) =
    numbered_line to_string lines j ++ numbered_lines to_string lines (suc j) rounds

-- the loop of the search, over the lines from position `i` on
unfoldable pub matches_from : (ℕ → Text) → List Text → Text → List Text → ℕ → Text
matches_from to_string lines search [] i = []
matches_from to_string lines search (line ∷ rest) i =
    (elim (find search line) [
      | none ↦ []
      | some at ↦
          let from = i - 3 in
          let to = min (i + 3) (length lines - 1) in
          numbered_lines to_string lines from (to + 1 - from) ++ codes "---\n"
    ])
    ++ matches_from to_string lines search rest (suc i)

-- the lines `from` to `to`, both counted from 1
unfoldable pub range_text : (ℕ → Text) → List Text → ℕ → ℕ → Text
range_text to_string lines from_line to_line =
    let from = max 1 from_line in
    let to = min (length lines) to_line in
    codes " lines="
    ++ (to_string from
        ++ (codes "-"
            ++ (to_string to
                ++ (codes "]\n" ++ numbered_lines to_string lines (from - 1) (to + 1 - from)))))

-- the number, if it is positive
unfoldable pub positive : ℤ → Option ℕ
positive (pos (suc n)) = some (suc n)
positive (pos zero) = none
positive (negsuc n) = none

unfoldable pub read_text : (ℕ → Text) → ReadAction → Text → Text
read_text to_string action content =
    let lines = getlines b'\n' content in
    codes "[file: "
    ++ (action.path
        ++ (if not (is_empty action.search)
            then codes " search=\""
              ++ (action.search
                  ++ (codes "\"]\n" ++ matches_from to_string lines action.search lines 0))
            else elim (positive action.from_line) [
              | none ↦ codes "]\n" ++ content
              | some from ↦ elim (positive action.to_line) [
                | none ↦ codes "]\n" ++ content
                | some to ↦ range_text to_string lines from to
              ]
            ]))

module _ (desk : Desk) where
  -- what is read for the model, nothing if there is no file
  unfoldable pub process_read : ReplState desk → ReadAction → Text × ReplState desk
  process_read s action = elim (desk.read s.state action.path) [
    | none ↦ ([], show_error desk s (codes "read: file not found: " ++ action.path))
    | some content ↦ (read_text desk.to_string action content, s)
  ]

-- a round of the first loop of `strip_exec_annotations`
unfoldable pub strip_exec_step : Text → Text → Option Text
strip_exec_step warning text = do
  start ← find (codes "<exec>") text
  end ← find_from (codes "</exec>") text start
  let cmd = substr text (start + 6) (end - start - 6)
  some (splice text start (end + 7 - start) (summary warning (codes "[proposed: exec ") cmd))

-- a round of the second loop: the tag is erased, and the position stays
unfoldable pub erase_tag : Text → ℕ → Text → Option (ℕ × Text)
erase_tag needle at text = do
  start ← find_from needle text at
  end ← find_from (codes ">") text start
  some (start, splice text start (end - start + 1) [])

unfoldable pub erase_tags : Text → ℕ → ℕ → Text → Option Text
erase_tags needle zero at text = none
erase_tags needle (suc fuel) at text = elim (erase_tag needle at text) [
  | none ↦ some text
  | some (next, erased) ↦ erase_tags needle fuel next erased
]

unfoldable pub raw_tags : List Text
raw_tags =
    codes "<exec>"
    ∷ codes "</exec>"
    ∷ codes "<write"
    ∷ codes "</write>"
    ∷ codes "<str_replace"
    ∷ codes "</str_replace>"
    ∷ codes "<read "
    ∷ codes "<search>"
    ∷ codes "</search>"
    ∷ []

unfoldable pub erase_all : List Text → Text → Option Text
erase_all [] text = some text
erase_all (needle ∷ needles) text = do
  erased ← erase_tags needle (length text + 1) 0 text
  erase_all needles erased

unfoldable pub strip_exec_annotations : Text → ℕ → Text → Option Text
strip_exec_annotations warning fuel text = do
  summarised ← rewrite (strip_exec_step warning) fuel text
  erase_all raw_tags summarised
