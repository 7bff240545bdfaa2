-- ===== src/Tui/Cells.antt =====
-- Reading back the cells of a rendered row.
use llama_cli.Base.Words.{drop_while}
use llama_cli.Tui.Table.{
  is_table_row, trim_end, trim, cells_from, parse_table_cells, measure, padded, row_cells, row_line,
}
use llama_cli.Base.{
  ℕ, zero, suc, ◌-◌, ◌≤◌, ◌≡◌, refl, sym, ap, ◌∙◌, ◌≢◌, inl, inr, Bool, is_empty, ◌&&◌, drop, false,
  List, [], ◌∷◌, ◌++◌, map, append-nil, append_assoc, arith, ltb, ◌==◌, if◌then◌else◌, ne→beq,
  Bool-cases, length, replicate, All, All-append, Text, codes,
}

-- The text has no pipe.
abbrev pub PipeFree : Text → Type 0
PipeFree w = All (λ c. c ≢ b'|') w

cells_from-append :
    (w rest acc : Text)
    → PipeFree w
    → cells_from (w ++ b'|' ∷ rest) acc ≡ trim (acc ++ w) ∷ cells_from rest []
unfolding cells_from
cells_from-append [] rest acc free = ap (λ t. trim t ∷ cells_from rest []) (sym (append-nil acc))
cells_from-append (c ∷ w) rest acc (other, free) =
    rw (ne→beq c b'|' other, cells_from)
      (cells_from-append w rest (acc ++ c ∷ []) free
        ∙ ap (λ t. trim t ∷ cells_from rest []) (append_assoc acc (c ∷ []) w))

PipeFree-spaces : (n : ℕ) → PipeFree (replicate n b' ')
PipeFree-spaces zero = tt
PipeFree-spaces (suc n) = (omega arith, PipeFree-spaces n)

trim_end-spaces : (w : Text) (n : ℕ) → trim_end (w ++ replicate n b' ') ≡ trim_end w
unfolding trim_end
trim_end-spaces [] zero = refl
trim_end-spaces [] (suc n) = rw (trim_end-spaces [] n)
trim_end-spaces (c ∷ w) n = rw (trim_end-spaces w n)

-- a blank text with more blanks is blank
trim_spaces : (w : Text) (n : ℕ) → trim (w ++ replicate n b' ') ≡ trim w
unfolding trim drop_while trim_end
trim_spaces [] zero = refl
trim_spaces [] (suc n) = trim_spaces [] n
trim_spaces (c ∷ w) n = elim (Bool-cases (c == b' ')) [
  | inl blank ↦ rw (blank, trim, drop_while) (trim_spaces w n)
  | inr other ↦ rw (other, trim, drop_while) (trim_end-spaces (c ∷ w) n)
]

spaces_snoc :
    (k : ℕ) (rest : Text) → replicate k b' ' ++ b' ' ∷ rest ≡ replicate (suc k) b' ' ++ rest
spaces_snoc zero rest = refl
spaces_snoc (suc k) rest = ap (◌∷◌ b' ') (spaces_snoc k rest)

leading : (t : Text) → trim (b' ' ∷ t) ≡ trim t
unfolding trim drop_while
leading t = refl

step : (rest : Text) → cells_from (b' ' ∷ rest) [] ≡ cells_from rest (codes " ")
unfolding cells_from
step rest = refl

trim_nil : trim [] ≡ []
unfolding trim drop_while trim_end
trim_nil = refl

blank : cells_from [] (codes " ") ≡ []
unfolding cells_from trim drop_while trim_end
blank = refl

PipeFree-drop_while : (test : ℕ → Bool) (w : Text) → PipeFree w → PipeFree (drop_while test w)
unfolding drop_while
PipeFree-drop_while test [] free = tt
PipeFree-drop_while test (c ∷ w) (other, free) = elim (Bool-cases (test c)) [
  | inl e ↦ rw (e, drop_while) (PipeFree-drop_while test w free)
  | inr e ↦ rw (e, drop_while) (other, free)
]

PipeFree-trim_end : (w : Text) → PipeFree w → PipeFree (trim_end w)
unfolding trim_end
PipeFree-trim_end [] free = tt
PipeFree-trim_end (c ∷ w) (other, free) = elim (Bool-cases (is_empty (trim_end w) && c == b' ')) [
  | inl e ↦ rw (e, trim_end) tt
  | inr e ↦ rw (e, trim_end) (other, PipeFree-trim_end w free)
]

PipeFree-trim : (w : Text) → PipeFree w → PipeFree (trim w)
unfolding trim
PipeFree-trim w free =
    PipeFree-trim_end (drop_while (λ c. c == b' ') w) (PipeFree-drop_while (λ c. c == b' ') w free)

PipeFree-cells_from : (line acc : Text) → PipeFree acc → All PipeFree (cells_from line acc)
unfolding cells_from
PipeFree-cells_from [] acc free = elim (Bool-cases (is_empty (trim acc))) [
  | inl e ↦ rw (e, cells_from) tt
  | inr e ↦ rw (e, cells_from) (PipeFree-trim acc free, tt)
]
PipeFree-cells_from (c ∷ line) acc free = elim (Bool-cases (c == b'|')) [
  | inl e ↦ rw (e, cells_from) (PipeFree-trim acc free, PipeFree-cells_from line [] tt)
  | inr e ↦
      rw (e, cells_from)
        (PipeFree-cells_from line (acc ++ c ∷ []) (
          All-append (λ x. x ≢ b'|') acc (c ∷ []) free
            (((λ same. absurd (ground (arith, same, e))), tt))))
]

-- The cells of a row have no pipes.
pub PipeFree-parse_table_cells : (row : Text) → All PipeFree (parse_table_cells row)
unfolding parse_table_cells
PipeFree-parse_table_cells row =
    PipeFree-cells_from (if is_table_row row then drop 1 row else row) [] tt

module _ (render_inline : Text → Text) where
  -- a cell of a row and what follows it, read behind the blank of the last border
  cells_from-padded :
      (cell rest : Text) (w : ℕ)
      → PipeFree cell
      → cells_from (padded render_inline false cell w ++ rest) (codes " ")
        ≡ trim cell ∷ cells_from rest (codes " ")
  unfolding padded
  cells_from-padded cell rest w free =
      let k = if ltb (measure false cell) w then w - measure false cell else 0 in
      ap (λ t. cells_from t (codes " ")) (split k)
      ∙ cells_from-append (cell ++ replicate (suc k) b' ') (b' ' ∷ rest) (codes " ")
          (All-append (λ c. c ≢ b'|') cell (replicate (suc k) b' ') free (PipeFree-spaces (suc k)))
      ∙ ap (λ t. t ∷ cells_from (b' ' ∷ rest) [])
          (leading (cell ++ replicate (suc k) b' ') ∙ trim_spaces cell (suc k))
      ∙ ap (λ l. trim cell ∷ l) (step rest)
    where
      split :
          (k : ℕ)
          → (cell ++ (replicate k b' ' ++ codes " | ")) ++ rest
            ≡ (cell ++ replicate (suc k) b' ') ++ b'|' ∷ b' ' ∷ rest
      split k =
          append_assoc cell (replicate k b' ' ++ codes " | ") rest
          ∙ ap (λ t. cell ++ t)
              (append_assoc (replicate k b' ') (codes " | ") rest
                ∙ spaces_snoc k (b'|' ∷ b' ' ∷ rest))
          ∙ sym (append_assoc cell (replicate (suc k) b' ') (b'|' ∷ b' ' ∷ rest))

  cells_from-row_cells :
      (cells : List Text) (widths : List ℕ)
      → All PipeFree cells
      → length cells ≤ length widths
      → cells_from (row_cells render_inline false cells widths) (codes " ")
        ≡ map trim cells ++ replicate (length widths - length cells) []
  unfolding row_cells
  cells_from-row_cells [] [] free le = blank
  cells_from-row_cells (cell ∷ cells) [] free le = absurd (omega arith)
  cells_from-row_cells [] (w ∷ widths) free le =
      cells_from-padded [] (row_cells render_inline false [] widths) w tt
      ∙ ap (λ t. t ∷ cells_from (row_cells render_inline false [] widths) (codes " ")) trim_nil
      ∙ ap (◌∷◌ []) (cells_from-row_cells [] widths tt (omega arith))
      ∙ ap (λ k. replicate k (let e : Text = [] in e))
          (let e : suc (length widths - 0) ≡ suc (length widths) - 0 = omega arith in e)
  cells_from-row_cells (cell ∷ cells) (w ∷ widths) (f, free) le =
      cells_from-padded cell (row_cells render_inline false cells widths) w f
      ∙ ap (◌∷◌ (trim cell)) (cells_from-row_cells cells widths free (omega arith))
      ∙ ap (λ k. trim cell ∷ (map trim cells ++ replicate k []))
          (let e : length widths - length cells ≡ suc (length widths) - suc (length cells) =
              omega arith in
            e)

  -- Without colours, reading a rendered row of cells without a pipe, no more of them than columns,
  -- gives the cells back, trimmed, with an empty cell for each column that the row does not have,
  -- whatever the widths.
  pub parse_table_cells-row_line :
      (cells : List Text) (widths : List ℕ)
      → All PipeFree cells
      → length cells ≤ length widths
      → parse_table_cells (row_line render_inline false cells widths)
        ≡ map trim cells ++ replicate (length widths - length cells) []
  unfolding parse_table_cells row_line is_table_row cells_from
  parse_table_cells-row_line cells widths free le = cells_from-row_cells cells widths free le
