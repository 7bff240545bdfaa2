-- ===== src/Tui/Table.antt =====
-- src/tui/table.cpp: `is_table_separator`, `parse_table_cells`, `visible_length` and `render_table`.
-- The width of the terminal and `render_inline` are arguments.
use Prim.Native.Nat.{max}
use llama_cli.Base.Words.{drop_while}
use llama_cli.Base.{
  ℕ, zero, suc, ◌+◌, ◌-◌, ◌*◌, ◌/◌, ◌%◌, ◌^◌, Bool, true, false, not, ◌&&◌, ◌||◌, Option, none,
  some, List, [], ◌∷◌, ◌++◌, map, ltb, leb, ◌==◌, if◌then◌else◌, ◌>>=◌, length, drop, replicate,
  Text, codes, is_empty, char_at, starts_with, find_from,
}

unfoldable pub is_table_row : Text → Bool
is_table_row line = not (is_empty line) && char_at line 0 == b'|'

-- the loop of `is_table_separator`
unfoldable pub only_rules : Text → Bool
only_rules [] = true
only_rules (c ∷ line) = (c == b'|' || c == b'-' || c == b':' || c == b' ') && only_rules line

unfoldable pub is_table_separator : Text → Bool
is_table_separator line = is_table_row line && only_rules line

-- the text up to `find_last_not_of(' ')`
unfoldable pub trim_end : Text → Text
trim_end [] = []
trim_end (c ∷ s) = let rest = trim_end s in if is_empty rest && c == b' ' then [] else c ∷ rest

-- the text from `find_first_not_of(' ')` to `find_last_not_of(' ')`
unfoldable pub trim : Text → Text
trim cell = trim_end (drop_while (λ c. c == b' ') cell)

-- The loop, byte by byte: a cell ends at a pipe, and the last one counts if it is not blank.
unfoldable pub cells_from : Text → Text → List Text
cells_from [] cell = if is_empty (trim cell) then [] else trim cell ∷ []
cells_from (c ∷ line) cell = elim (c == b'|') [
  | true ↦ trim cell ∷ cells_from line []
  | false ↦ cells_from line (cell ++ c ∷ [])
]

unfoldable pub parse_table_cells : Text → List Text
parse_table_cells line = cells_from (if is_table_row line then drop 1 line else line) []

-- a text between two equal markers: what it shows, and the position behind it
unfoldable pub marked : Text → Text → ℕ → Option (ℕ × ℕ)
marked mark text i =
    if starts_with mark (drop i text)
    then (find_from mark text (i + length mark) >>= λ end.
        some (end - i - length mark, end + length mark))
    else none

unfoldable pub code_span : Text → ℕ → Option (ℕ × ℕ)
code_span text i =
    if char_at text i == b'`' && (leb (length text) (i + 1) || not (char_at text (i + 1) == b'`'))
    then (find_from (codes "`") text (i + 1) >>= λ end. some (end - i - 1, end + 1))
    else none

unfoldable pub link : Text → ℕ → Option (ℕ × ℕ)
link text i =
    if not (char_at text i == b'[')
    then none
    else find_from (codes "]") text (i + 1) >>= λ cb.
        if not (ltb (cb + 1) (length text) && char_at text (cb + 1) == b'(')
        then none
        else find_from (codes ")") text (cb + 2) >>= λ cp.
            some (cb - i - 1 + 1 + (cp - cb - 2) + 1, cp + 1)

unfoldable pub italic : Text → ℕ → Option (ℕ × ℕ)
italic text i =
    if not (
      char_at text i == b'*'
      && ((i == 0 || not (char_at text (i - 1) == b'*'))
          && (ltb (i + 1) (length text) && not (char_at text (i + 1) == b'*'))))
    then none
    else find_from (codes "*") text (i + 1) >>= λ end.
        if leb (length text) (end + 1) || not (char_at text (end + 1) == b'*')
        then some (end - i - 1, end + 1)
        else none

-- the first that is there
unfoldable pub first_of : List (Option (ℕ × ℕ)) → ℕ × ℕ → ℕ × ℕ
first_of [] d = d
first_of (o ∷ os) d = elim o [ none ↦ first_of os d | some r ↦ r ]

-- A round: what is added to `len`, and the next position.
unfoldable pub visible_step : Text → ℕ → ℕ × ℕ
visible_step text i =
    first_of
      (marked (codes "***") text i
        ∷ marked (codes "**") text i
        ∷ marked (codes "~~") text i
        ∷ code_span text i
        ∷ link text i
        ∷ italic text i
        ∷ [])
      (1, i + 1)

unfoldable pub visible_from : Text → ℕ → ℕ → Option ℕ
visible_from text zero i = none
visible_from text (suc rounds) i = elim (ltb i (length text)) [
  | false ↦ some 0
  | true ↦ visible_from text rounds (visible_step text i).1 >>= λ later.
      some ((visible_step text i).0 + later)
]

unfoldable pub visible_length : Text → Option ℕ
visible_length text = visible_from text (length text + 1) 0

unfoldable pub measure : Bool → Text → ℕ
measure color cell =
    if color then elim (visible_length cell) [ none ↦ 0 | some n ↦ n ] else length cell

-- one row of the loop that computes `max_widths`, which has a width for each cell
unfoldable pub widen : Bool → List Text → List ℕ → List ℕ
widen color [] widths = widths
widen color (cell ∷ cells) [] = []
widen color (cell ∷ cells) (w ∷ widths) = max w (measure color cell) ∷ widen color cells widths

unfoldable pub max_widths : Bool → List (List Text) → List ℕ → List ℕ
max_widths color [] widths = widths
max_widths color (cells ∷ rows) widths = max_widths color rows (widen color cells widths)

unfoldable pub num_cols : List (List Text) → ℕ
num_cols [] = 0
num_cols (cells ∷ rows) = max (length cells) (num_cols rows)

unfoldable pub total_content : List ℕ → ℕ
total_content [] = 0
total_content (w ∷ widths) = max w 1 + total_content widths

-- `available`: `max` makes up for a terminal that is narrower than the borders
unfoldable pub available : ℕ → ℕ → ℕ
available term_width columns = max columns (term_width - (columns + 1 + columns * 2))

-- the product is a `size_t`
unfoldable pub col_width : ℕ → ℕ → ℕ → ℕ
col_width space total w = max (max w 1) (max w 1 * space % 2 ^ 64 / total)

unfoldable pub sep_cells : List ℕ → Text
sep_cells [] = []
sep_cells (w ∷ widths) = replicate (w + 2) b'-' ++ (codes "|" ++ sep_cells widths)

unfoldable pub sep_line : List ℕ → Text
sep_line widths = codes "|" ++ sep_cells widths

unfoldable pub column_widths : ℕ → Bool → List Text → List ℕ
column_widths term_width color rows =
    let parsed = map parse_table_cells rows in
    let columns = num_cols parsed in
    let widths = max_widths color parsed (replicate columns 0) in
    map (col_width (available term_width columns) (total_content widths)) widths

unfoldable pub with_newlines : List Text → Text
with_newlines [] = []
with_newlines (line ∷ lines) = line ++ b'\n' ∷ with_newlines lines

module _ (render_inline : Text → Text) where
  -- a cell with its padding
  unfoldable pub padded : Bool → Text → ℕ → Text
  padded color cell w =
      (if color then render_inline cell else cell)
      ++ (replicate (if ltb (measure color cell) w then w - measure color cell else 0) b' '
          ++ codes " | ")

  unfoldable pub row_cells : Bool → List Text → List ℕ → Text
  row_cells color cells [] = []
  row_cells color [] (w ∷ widths) = padded color [] w ++ row_cells color [] widths
  row_cells color (cell ∷ cells) (w ∷ widths) = padded color cell w ++ row_cells color cells widths

  unfoldable pub row_line : Bool → List Text → List ℕ → Text
  row_line color cells widths = codes "| " ++ row_cells color cells widths

  unfoldable pub table_line : Bool → List ℕ → Text → Text
  table_line color widths row =
      if is_table_separator row
      then (if color
          then (27 ∷ codes "[2m") ++ (sep_line widths ++ (27 ∷ codes "[0m"))
          else sep_line widths)
      else row_line color (parse_table_cells row) widths

  unfoldable pub table_lines : Bool → List ℕ → List Text → List Text
  table_lines color widths [] = []
  table_lines color widths (row ∷ rows) =
      table_line color widths row ∷ table_lines color widths rows

  unfoldable pub render_table : ℕ → Bool → List Text → Text
  render_table term_width color rows =
      if num_cols (map parse_table_cells rows) == 0
      then []
      else with_newlines (table_lines color (column_widths term_width color rows) rows)
