-- ===== src/Annotation/Strip.antt =====
-- src/annotation/annotation.cpp: `strip_annotations`. Its six loops rewrite the text until no tag is
-- left; the fuel counts the rounds of each, and `none` means that a loop was still running. The
-- styles are the escape sequences that the active theme gives.
use llama_cli.Annotation.Block.{attr}
use llama_cli.Base.{
  ℕ, zero, suc, ◌+◌, ◌-◌, Option, none, some, ◌∷◌, ◌++◌, ◌>>=◌, take, drop, Text, codes, substr,
  find_from,
}

-- `text.replace(start, n, with)`
abbrev pub splice : Text → ℕ → ℕ → Text → Text
splice text start n with = take start text ++ (with ++ drop (start + n) text)

abbrev pub reset : Text
reset = 27 ∷ codes "[0m"

unfoldable pub rewrite : (Text → Option Text) → ℕ → Text → Option Text
rewrite step zero text = none
rewrite step (suc fuel) text = elim (step text) [ none ↦ some text | some t ↦ rewrite step fuel t ]

unfoldable pub summary : Text → Text → Text → Text
summary style label subject = style ++ (label ++ (subject ++ (codes "]" ++ reset)))

unfoldable pub strip_write_step : Text → Text → Option Text
strip_write_step warning text = do
  start ← find_from (codes "<write file=\"") text 0
  path_end ← find_from (codes "\"") text (start + 13)
  end ← find_from (codes "</write>") text start
  let path = substr text (start + 13) (path_end - (start + 13))
  some (splice text start (end + 8 - start) (summary warning (codes "[proposed: write ") path))

unfoldable pub strip_str_replace_step : Text → Text → Option Text
strip_str_replace_step warning text = do
  start ← find_from (codes "<str_replace ") text 0
  path_start ← find_from (codes "path=\"") text start
  path_end ← find_from (codes "\"") text (path_start + 6)
  end ← find_from (codes "</str_replace>") text start
  let path = substr text (path_start + 6) (path_end - (path_start + 6))
  some (
      splice text start (end + 14 - start) (summary warning (codes "[proposed: str_replace ") path))

unfoldable pub strip_read_step : Text → Text → Option Text
strip_read_step info text = do
  start ← find_from (codes "<read ") text 0
  end ← find_from (codes ">") text start
  let path = attr (substr text start (end - start + 1)) (codes "path")
  some (splice text start (end + 1 - start) (summary info (codes "[read ") path))

unfoldable pub strip_search_step : Text → Text → Option Text
strip_search_step info text = do
  start ← find_from (codes "<search>") text 0
  end ← find_from (codes "</search>") text start
  let query = substr text (start + 8) (end - start - 8)
  some (splice text start (end + 9 - start) (summary info (codes "[search: ") query))

unfoldable pub strip_add_line_step : Text → Text → Option Text
strip_add_line_step warning text = do
  start ← find_from (codes "<add_line ") text 0
  end ← find_from (codes "/>") text start
  let path = attr (substr text start (end - start + 2)) (codes "path")
  some
      (splice text start (end + 2 - start) (summary warning (codes "[proposed: add line to ") path))

unfoldable pub strip_delete_line_step : Text → Text → Option Text
strip_delete_line_step warning text = do
  start ← find_from (codes "<delete_line ") text 0
  end ← find_from (codes "/>") text start
  let path = attr (substr text start (end - start + 2)) (codes "path")
  some (
      splice text start (end + 2 - start)
        (summary warning (codes "[proposed: delete line from ") path))

unfoldable pub strip_annotations : Text → Text → ℕ → Text → Option Text
strip_annotations warning info fuel text = do
  t₁ ← rewrite (strip_write_step warning) fuel text
  t₂ ← rewrite (strip_str_replace_step warning) fuel t₁
  t₃ ← rewrite (strip_read_step info) fuel t₂
  t₄ ← rewrite (strip_search_step info) fuel t₃
  t₅ ← rewrite (strip_add_line_step warning) fuel t₄
  rewrite (strip_delete_line_step warning) fuel t₅
