-- ===== src/Orchestrator/Render.antt =====
-- What `render_template` of src/orchestrator/prompt_template.cpp makes of a template with keys.
use llama_cli.Base.Search.{
  find-append_Lacks, find_here, find_from_behind, starts_with-append, take_front, drop_front,
}
use llama_cli.Orchestrator.Template.{value_of, filled_in, render_from, render_template}
use llama_cli.Base.{
  ℕ, zero, suc, ◌+◌, ◌-◌, ◌≤◌, ◌<◌, ◌≡◌, refl, sym, ap, ◌∙◌, none, some, List, [], ◌∷◌, ◌++◌,
  append_assoc, text_eq, inl, inr, Bool-cases, if◌then◌else◌, arith, ne→beq, length, take, drop,
  length-append, take-length-append, All, Text, codes, substr, starts_with, find, find_from, Lacks,
}

-- A text without an opening brace, and a key without a closing one.
abbrev pub Piece : Type 0
Piece = Text × Text

abbrev pub IsPiece : Piece → Type 0
IsPiece (before, key) = Lacks b'{' before × Lacks b'}' key

-- The template with these pieces, and what it should become.
abbrev pub template_of : List Piece → Text → Text
template_of [] end = end
template_of ((before, key) ∷ pieces) end =
    before ++ (codes "{{" ++ (key ++ (codes "}}" ++ template_of pieces end)))

-- The value of the first variable with the key's name, else the key in its braces.
abbrev pub expected : List (Text × Text) → Text → Text
expected [] key = codes "{{" ++ (key ++ codes "}}")
expected ((k, v) ∷ vars) key = if text_eq k key then v else expected vars key

filled_in-expected :
    (vars : List (Text × Text)) (key : Text) → filled_in vars key ≡ expected vars key
unfolding filled_in value_of
filled_in-expected [] key = refl
filled_in-expected ((k, v) ∷ vars) key = elim (Bool-cases (text_eq k key)) [
  | inl e ↦ rw (e, filled_in, value_of) refl
  | inr e ↦ rw (e, filled_in, value_of) (filled_in-expected vars key)
]

abbrev pub rendered : List (Text × Text) → List Piece → Text → Text
rendered vars [] end = end
rendered vars ((before, key) ∷ pieces) end =
    before ++ (expected vars key ++ rendered vars pieces end)

no_opening : (s : Text) → Lacks b'{' s → find (codes "{{") s ≡ none
unfolding find starts_with
no_opening [] h = refl
no_opening (c ∷ s) (hc, h) = rw (ne→beq b'{' c (λ e. hc (sym e)), no_opening s h) refl

module _ (before key rest : Text) (plain : Lacks b'{' before) (closed : Lacks b'}' key) where
  abbrev whole : Text
  whole = before ++ (codes "{{" ++ (key ++ (codes "}}" ++ rest)))

  opening_at : find (codes "{{") whole ≡ some (length before)
  opening_at =
      find-append_Lacks b'{' (b'{' ∷ []) before (codes "{{" ++ (key ++ (codes "}}" ++ rest))) plain
      ∙ rw
          (find_here (codes "{{") (codes "{{" ++ (key ++ (codes "}}" ++ rest)))
            (starts_with-append (codes "{{") (key ++ (codes "}}" ++ rest))))
          (ap some (omega arith))

  in_key : find (codes "}}") (key ++ (codes "}}" ++ rest)) ≡ some (length key)
  in_key =
      find-append_Lacks b'}' (b'}' ∷ []) key (codes "}}" ++ rest) closed
      ∙ rw (find_here (codes "}}") (codes "}}" ++ rest) (starts_with-append (codes "}}") rest))
          (ap some (omega arith))

  regrouped : whole ≡ (before ++ codes "{{") ++ (key ++ (codes "}}" ++ rest))
  regrouped = simp append_assoc refl

  closing_at :
      find_from (codes "}}") whole (length before + 2) ≡ some (length before + 2 + length key)
  closing_at =
      let size : length before + 2 ≡ length (before ++ codes "{{") =
        sym (length-append {0} before (codes "{{")) in
      ap (λ t. find_from (codes "}}") t (length before + 2)) regrouped
      ∙ find_from_behind (codes "}}") (before ++ codes "{{") (key ++ (codes "}}" ++ rest))
          (length before + 2) size
      ∙ rw in_key (ap some (omega (arith, size)))

  key_there :
      substr whole (length before + 2) (length before + 2 + length key - length before - 2) ≡ key
  key_there =
      let size : length before + 2 ≡ length (before ++ codes "{{") =
        sym (length-append {0} before (codes "{{")) in
      ap (take (length before + 2 + length key - length before - 2)) (
        ap (drop (length before + 2)) regrouped
        ∙ drop_front (length before + 2) (before ++ codes "{{") (key ++ (codes "}}" ++ rest)) size)
      ∙ take_front _ key (codes "}}" ++ rest) (omega arith)

  rest_there : drop (length before + 2 + length key + 2) whole ≡ rest
  rest_there =
      let front = before ++ (codes "{{" ++ (key ++ codes "}}")) in
      let whole_front : whole ≡ front ++ rest = simp append_assoc refl in
      ap (drop (length before + 2 + length key + 2)) whole_front
      ∙ drop_front _ front rest (
          omega (
            arith,
            length-append {0} before (codes "{{" ++ (key ++ codes "}}")),
            length-append {0} key (codes "}}"),
          ))

  render_piece :
      (vars : List (Text × Text)) (fuel : ℕ) (out : Text)
      → render_from vars fuel rest ≡ some out
      → render_from vars (suc fuel) whole ≡ some (before ++ (expected vars key ++ out))
  unfolding render_from
  render_piece vars fuel out h =
      rw (opening_at, closing_at, render_from)
        (rw (rest_there, h)
          (rw (take-length-append before (codes "{{" ++ (key ++ (codes "}}" ++ rest))), key_there)
            (rw (filled_in-expected vars key) refl)))

render_pieces :
    (vars : List (Text × Text)) (fuel : ℕ) (pieces : List Piece) (end : Text)
    → length pieces < fuel
    → All IsPiece pieces
    → Lacks b'{' end
    → render_from vars fuel (template_of pieces end) ≡ some (rendered vars pieces end)
unfolding render_from
render_pieces vars zero pieces end lt h plain = absurd (omega arith)
render_pieces vars (suc fuel) [] end lt h plain = rw (no_opening end plain, render_from) refl
render_pieces vars (suc fuel) ((before, key) ∷ pieces) end lt ((hb, hk), h) plain =
    render_piece before key (template_of pieces end) hb hk vars fuel (rendered vars pieces end)
      (render_pieces vars fuel pieces end (omega arith) h plain)

pieces_length : (pieces : List Piece) (end : Text) → length pieces ≤ length (template_of pieces end)
pieces_length [] end = omega arith
pieces_length ((before, key) ∷ pieces) end =
    let rest = template_of pieces end in
    omega (
      arith,
      pieces_length pieces end,
      length-append {0} before (codes "{{" ++ (key ++ (codes "}}" ++ rest))),
      length-append {0} key (codes "}}" ++ rest),
    )

-- Every key of a template is replaced by its value, a key without a value stays as it is written, and the text
-- between the keys stays: for a template of texts without an opening brace and of keys without a closing one.
pub render_template_of :
    (vars : List (Text × Text)) (pieces : List Piece) (end : Text)
    → All IsPiece pieces
    → Lacks b'{' end
    → render_template (template_of pieces end) vars ≡ some (rendered vars pieces end)
unfolding render_template
render_template_of vars pieces end h plain =
    render_pieces vars (length (template_of pieces end) + 1) pieces end
      (omega (arith, pieces_length pieces end)) h plain
