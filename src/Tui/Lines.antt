-- ===== src/Tui/Lines.antt =====
-- src/tui/markdown.cpp: the lines with a rendering of their own, headings, rules and list items.
-- `render_inline`, the rendering inside of a line, is an argument.
use llama_cli.Base.Words.{drop_while, take_while}
use llama_cli.Base.{
  ℕ, ◌+◌, Bool, true, false, not, ◌&&◌, ◌||◌, none, some, [], ◌∷◌, ◌++◌, ltb, leb, ◌==◌,
  if◌then◌else◌, length, take, drop, replicate, Text, codes, is_empty, char_at, find,
}

-- the loop of `is_horizontal_rule`: `rule` is 0 before the first mark
unfoldable pub rule_from : Text → ℕ → ℕ → Bool
rule_from [] rule count = leb 3 count
rule_from (c ∷ line) rule count = elim (c == b' ') [
  | true ↦ rule_from line rule count
  | false ↦ elim (c == b'-' || c == b'*' || c == b'_') [
    | false ↦ false
    | true ↦ elim (rule == 0 || c == rule) [ true ↦ rule_from line c (count + 1) | false ↦ false ]
  ]
]

unfoldable pub is_horizontal_rule : Text → Bool
is_horizontal_rule line = if ltb (length line) 3 then false else rule_from line 0 0

abbrev pub bold_line : Text → Text
bold_line s = (27 ∷ codes "[1;4m") ++ (s ++ (27 ∷ codes "[0m" ++ b'\n' ∷ []))

unfoldable pub try_heading : Text → Text
try_heading line =
    if is_empty line || not (char_at line 0 == b'#')
    then []
    else elim (drop_while (λ c. c == b'#') line) [
      | [] ↦ []
      | c ∷ title ↦ if c == b' ' then bold_line title else []
    ]

-- a bullet, three bytes
abbrev bullet : Text
bullet = 226 ∷ 128 ∷ 162 ∷ []

unfoldable pub try_list : (Text → Text) → Text → Text
try_list render_inline line =
    let indent = length (take_while (λ c. c == b' ' || c == b'\t') line) in
    let rest = drop_while (λ c. c == b' ' || c == b'\t') line in
    let pad = replicate (2 + indent) b' ' in
    if leb 2 (length rest)
      && ((char_at rest 0 == b'-' || char_at rest 0 == b'*') && char_at rest 1 == b' ')
    then pad ++ (bullet ++ (codes " " ++ (render_inline (drop 2 rest) ++ b'\n' ∷ [])))
    else if not (is_empty rest) && (leb b'1' (char_at rest 0) && leb (char_at rest 0) b'9')
    then elim (find (codes ". ") rest) [
      | none ↦ []
      | some dot ↦
          if leb dot 3
          then pad ++ (take (dot + 2) rest ++ (render_inline (drop (dot + 2) rest) ++ b'\n' ∷ []))
          else []
    ]
    else []
