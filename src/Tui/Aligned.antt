-- ===== src/Tui/Aligned.antt =====
-- The rows of a rendered table have one width.
use llama_cli.Tui.Cells.{PipeFree-parse_table_cells, parse_table_cells-row_line}
use llama_cli.Tui.Table.{
  trim, is_table_separator, parse_table_cells, measure, widen, max_widths, num_cols, col_width,
  sep_cells, sep_line, padded, row_cells, row_line, table_line, column_widths,
}
use llama_cli.Base.{
  ℕ, suc, ◌+◌, ◌-◌, ◌≤◌, ◌≡◌, refl, ap, inl, inr, ◌⊎◌, true, Bool, false, List, [], ◌∷◌, ◌++◌, map,
  arith, ltb, if◌then◌else◌, Bool-cases, length, replicate, length-append, length-replicate, All,
  Text, codes,
}

-- Each cell has a column, and is not wider than the column.
abbrev pub Fits : Bool → List Text → List ℕ → Type 0
Fits color [] widths = Unit
Fits color (cell ∷ cells) [] = ⊥
Fits color (cell ∷ cells) (w ∷ widths) = (measure color cell ≤ w) × Fits color cells widths

Fits-length :
    (color : Bool) (cells : List Text) (widths : List ℕ)
    → Fits color cells widths
    → length cells ≤ length widths
Fits-length color [] widths fits = omega arith
Fits-length color (cell ∷ cells) [] fits = absurd fits
Fits-length color (cell ∷ cells) (w ∷ widths) (le, fits) =
    omega (arith, Fits-length color cells widths fits)

-- the columns with their borders
abbrev pub span : List ℕ → ℕ
span [] = 0
span (w ∷ widths) = w + 3 + span widths

length-sep_cells : (widths : List ℕ) → length (sep_cells widths) ≡ span widths
unfolding sep_cells
length-sep_cells [] = refl
length-sep_cells (w ∷ widths) = omega (
  arith,
  length-append (replicate (w + 2) b'-') (codes "|" ++ sep_cells widths),
  length-replicate {A = ℕ} (w + 2) b'-',
  length-sep_cells widths,
)

module _ (render_inline : Text → Text) where
  length-padded :
      (cell : Text) (w : ℕ) → length cell ≤ w → length (padded render_inline false cell w) ≡ w + 3
  unfolding padded measure
  length-padded cell w le =
      let pad = if ltb (length cell) w then w - length cell else 0 in
      let filled : pad ≡ w - length cell = ground arith in
      omega (
        arith,
        filled,
        length-append cell (replicate pad b' ' ++ codes " | "),
        length-append (replicate pad b' ') (codes " | "),
        length-replicate {A = ℕ} pad b' ',
      )

  length-row_cells :
      (cells : List Text) (widths : List ℕ)
      → Fits false cells widths
      → length (row_cells render_inline false cells widths) ≡ span widths
  unfolding row_cells measure
  length-row_cells [] [] fits = refl
  length-row_cells (cell ∷ cells) [] fits = absurd fits
  length-row_cells [] (w ∷ widths) fits = omega (
    arith,
    length-append (padded render_inline false [] w) (row_cells render_inline false [] widths),
    length-padded [] w (omega arith),
    length-row_cells [] widths tt,
  )
  length-row_cells (cell ∷ cells) (w ∷ widths) (le, fits) = omega (
    arith,
    length-append (padded render_inline false cell w) (row_cells render_inline false cells widths),
    length-padded cell w le,
    length-row_cells cells widths fits,
  )

-- A wider table still fits.
abbrev Wider : List ℕ → List ℕ → Type 0
Wider [] ws = Unit
Wider (v ∷ vs) [] = ⊥
Wider (v ∷ vs) (w ∷ ws) = (v ≤ w) × Wider vs ws

Wider-self : (ws : List ℕ) → Wider ws ws
Wider-self [] = tt
Wider-self (w ∷ ws) = (omega arith, Wider-self ws)

Wider-trans : (us vs ws : List ℕ) → Wider us vs → Wider vs ws → Wider us ws
Wider-trans [] vs ws p q = tt
Wider-trans (u ∷ us) [] ws p q = absurd p
Wider-trans (u ∷ us) (v ∷ vs) [] p q = absurd q
Wider-trans (u ∷ us) (v ∷ vs) (w ∷ ws) (p, ps) (q, qs) = (omega arith, Wider-trans us vs ws ps qs)

module _ (color : Bool) where
  Fits-Wider :
      (cells : List Text) (vs ws : List ℕ) → Fits color cells vs → Wider vs ws → Fits color cells ws
  Fits-Wider [] vs ws p q = tt
  Fits-Wider (cell ∷ cells) [] ws p q = absurd p
  Fits-Wider (cell ∷ cells) (v ∷ vs) [] p q = absurd q
  Fits-Wider (cell ∷ cells) (v ∷ vs) (w ∷ ws) (p, ps) (q, qs) =
      (omega arith, Fits-Wider cells vs ws ps qs)

  widen-Wider :
      (cells : List Text) (ws : List ℕ) → length cells ≤ length ws → Wider ws (widen color cells ws)
  unfolding widen
  widen-Wider [] ws le = Wider-self ws
  widen-Wider (cell ∷ cells) [] le = absurd (omega arith)
  widen-Wider (cell ∷ cells) (w ∷ ws) le = (omega arith, widen-Wider cells ws (omega arith))

  widen-Fits :
      (cells : List Text) (ws : List ℕ)
      → length cells ≤ length ws
      → Fits color cells (widen color cells ws)
  unfolding widen
  widen-Fits [] ws le = tt
  widen-Fits (cell ∷ cells) [] le = absurd (omega arith)
  widen-Fits (cell ∷ cells) (w ∷ ws) le = (omega arith, widen-Fits cells ws (omega arith))

  length-widen :
      (cells : List Text) (ws : List ℕ)
      → length cells ≤ length ws
      → length (widen color cells ws) ≡ length ws
  unfolding widen
  length-widen [] ws le = refl
  length-widen (cell ∷ cells) [] le = absurd (omega arith)
  length-widen (cell ∷ cells) (w ∷ ws) le = ap suc (length-widen cells ws (omega arith))

  max_widths-Fits :
      (rows : List (List Text)) (ws : List ℕ)
      → num_cols rows ≤ length ws
      → All (λ cells. Fits color cells (max_widths color rows ws)) rows
        × Wider ws (max_widths color rows ws)
  unfolding max_widths num_cols
  max_widths-Fits [] ws le = (tt, Wider-self ws)
  max_widths-Fits (cells ∷ rows) ws le =
      let here : length cells ≤ length ws = omega arith in
      let (fits, wider) =
        max_widths-Fits rows (widen color cells ws) (omega (arith, length-widen cells ws here)) in
      (
        (Fits-Wider cells _ _ (widen-Fits cells ws here) wider, fits),
        Wider-trans ws _ _ (widen-Wider cells ws here) wider,
      )

col_width-Wider : (space total : ℕ) (ws : List ℕ) → Wider ws (map (col_width space total) ws)
unfolding col_width
col_width-Wider space total [] = tt
col_width-Wider space total (w ∷ ws) = (omega arith, col_width-Wider space total ws)

All-map :
    (P : List Text → Type 0) (f : Text → List Text) (rows : List Text)
    → All P (map f rows)
    → All (λ row. P (f row)) rows
All-map P f [] h = tt
All-map P f (row ∷ rows) (p, h) = (p, All-map P f rows h)

All-weaken :
    (P Q : List Text → Type 0) (rows : List (List Text))
    → ((cells : List Text) → P cells → Q cells)
    → All P rows
    → All Q rows
All-weaken P Q [] imp h = tt
All-weaken P Q (cells ∷ rows) imp (p, h) = (imp cells p, All-weaken P Q rows imp h)

module _ (render_inline : Text → Text) where
  column_widths-Fits :
      (term_width : ℕ) (color : Bool) (rows : List Text)
      → All (λ row. Fits color (parse_table_cells row) (column_widths term_width color rows)) rows
  unfolding column_widths
  column_widths-Fits term_width color rows =
      let parsed = map parse_table_cells rows in
      let columns = num_cols parsed in
      let widths = max_widths color parsed (replicate columns 0) in
      let size = length-replicate {A = ℕ} columns 0 in
      All-map (λ cells. Fits color cells (column_widths term_width color rows)) parse_table_cells
        rows
        (All-weaken (λ cells. Fits color cells widths) _ parsed
          (λ cells fits. Fits-Wider color cells widths _ fits (col_width-Wider _ _ widths))
          (max_widths-Fits color parsed (replicate columns 0) (omega (arith, size))).0)

  -- the columns and borders, and the blank behind the last border of a row with text
  abbrev pub line_width : List ℕ → Text → ℕ
  line_width widths row = (if is_table_separator row then 1 else 2) + span widths

  -- What a row becomes: a line of the table's width, and one with text gives its cells back.
  abbrev pub IsAligned : List ℕ → Text → Type 0
  IsAligned widths row =
      (length (table_line render_inline false widths row) ≡ line_width widths row)
      × ((is_table_separator row ≡ true)
          ⊎ (parse_table_cells (table_line render_inline false widths row)
              ≡ map trim (parse_table_cells row)
                ++ replicate (length widths - length (parse_table_cells row)) []))

  aligned :
      (widths : List ℕ) (rows : List Text)
      → All (λ row. Fits false (parse_table_cells row) widths) rows
      → All (IsAligned widths) rows
  unfolding table_line sep_line row_line
  aligned widths [] fits = tt
  aligned widths (row ∷ rows) (f, fits) = (
    elim (Bool-cases (is_table_separator row)) [
      | inl sep ↦ (rw (sep, table_line) (omega (arith, length-sep_cells widths)), inl sep)
      | inr text ↦ (
        rw (text, table_line)
            (omega (arith, length-row_cells render_inline (parse_table_cells row) widths f)),
        inr (
            rw (text, table_line)
              (parse_table_cells-row_line render_inline (parse_table_cells row) widths
                (PipeFree-parse_table_cells row)
                (Fits-length false (parse_table_cells row) widths f))),
      )
    ],
    aligned widths rows fits,
  )

  -- Without colours each line of a table has the width of the columns with their borders, and one byte
  -- more in a row with text; and reading the line of a row with text gives all the row's cells back,
  -- whole, with an empty cell for each column that the row does not have.
  pub table_lines-IsAligned :
      (term_width : ℕ) (rows : List Text)
      → All (IsAligned (column_widths term_width false rows)) rows
  table_lines-IsAligned term_width rows =
      aligned (column_widths term_width false rows) rows (column_widths-Fits term_width false rows)
