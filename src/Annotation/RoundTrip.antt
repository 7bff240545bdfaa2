-- ===== src/Annotation/RoundTrip.antt =====
-- The actions that an answer made of plain text and whole `<write>` tags holds.
use llama_cli.Base.Search.{shift, find-append_Lacks, find_from_zero, find_from-shift}
use llama_cli.Base.Collect.{collect_stop, collect_cons, collect-Shifted, Shifted}
use llama_cli.Annotation.Actions.{WriteAction}
use llama_cli.Annotation.Attr.{attr_here, find_block_later}
use native.Mathlib.Numerals.{add-one}
use llama_cli.Annotation.Block.{find_block, open_start, attr}
use llama_cli.Annotation.Found.{block_text, block_size, opening_of, find_block_here}
use llama_cli.Annotation.Parse.{write_step, parse_write_annotations, unless_empty}
use llama_cli.Annotation.Shift.{moved, find_block_shift}
use llama_cli.Annotation.Total.{write_step-Advances}
use mathlib.Core.Option
use llama_cli.Base.{
  ℕ, ◌+◌, ◌≡◌, refl, sym, ap, ◌∙◌, ◌≢◌, inl, inr, none, some, List, [], ◌∷◌, ◌++◌, map, append-nil,
  append_assoc, arith, Option-cases, length, length-append, All, All-append, Text, codes, find,
  find_from, Lacks,
}

-- A tag `<write file="path">content</write>`.
abbrev path_attribute : Text → Text
path_attribute path = codes " file=\"" ++ (path ++ codes "\"")

-- An answer: what stands before each tag, the tag's action, and the end.
abbrev pub answer_text : List (Text × WriteAction) → Text → Text
answer_text [] end = end
answer_text ((before, a) ∷ ps) end =
    before ++ block_text (codes "write") (path_attribute a.path) a.content (answer_text ps end)

-- A path without quotes and brackets, and a content that its own closing tag ends.
pub record IsWritable (before : Text) (a : WriteAction) : Type 0 where
  pub no_tag : Lacks b'<' before
  pub path_ne_nil : a.path ≢ []
  pub no_quote : Lacks b'"' a.path
  pub no_bracket : Lacks b'>' a.path
  pub closed : find (codes "</write>") (a.content ++ codes "</write>") ≡ some (length a.content)

abbrev pub AreWritable : List (Text × WriteAction) → Type 0
AreWritable = All (λ p. IsWritable p.0 p.1)

file_attr :
    (path : Text)
    → Lacks b'"' path
    → attr (opening_of (codes "write") (path_attribute path) [] []) (codes "file") ≡ path
file_attr path no_quote =
    ap (λ t. attr (codes "<write file=\"" ++ t) (codes "file"))
      (append_assoc path (codes "\"") (codes ">"))
    ∙ attr_here (codes "<write ") b'f' (codes "ile") path (codes ">") (omega arith) no_quote

unless_empty_ne {ℓ κ} :
    {A : Type ℓ} {B : Type κ} (xs : List A) (action : B)
    → xs ≢ []
    → unless_empty xs action ≡ action ∷ []
unless_empty_ne [] action h = absurd (h refl)
unless_empty_ne (x ∷ xs) action h = refl

module _ (before : Text) (a : WriteAction) (rest : Text) (w : IsWritable before a) where
  abbrev block_of : Text
  block_of = block_text (codes "write") (path_attribute a.path) a.content rest

  abbrev size_of : ℕ
  size_of = block_size (codes "write") (path_attribute a.path) a.content rest

  not_before :
      find_from (open_start (codes "write")) (before ++ block_of) 0
      ≡ find_from (open_start (codes "write")) (before ++ block_of) (length before + 0)
  not_before =
      find_from_zero (codes "<write") (before ++ block_of)
      ∙ find-append_Lacks b'<' (codes "write") before block_of w.no_tag
      ∙ ap (shift (length before)) (sym (find_from_zero (codes "<write") block_of))
      ∙ sym (find_from-shift (codes "<write") before block_of 0)

  written_found :
      find_block (before ++ block_of) (codes "write") 0
      ≡ some (record {
        start = length before + 0;
        next = length before + size_of;
        opening = opening_of (codes "write") (path_attribute a.path) a.content rest;
        content = a.content;
      })
  written_found =
      let path_ok : Lacks b'>' (path_attribute a.path) =
        All-append (λ c. c ≢ b'>') (codes " file=\"") (a.path ++ codes "\"") (omega arith)
          (All-append (λ c. c ≢ b'>') a.path (codes "\"") w.no_bracket (omega arith)) in
      find_block_later (before ++ block_of) (codes "write") (length before + 0) _ not_before (
        find_block_shift before block_of (codes "write") 0
        ∙ ap (Option.map (moved (length before))) (
            find_block_here (codes "write") (path_attribute a.path) a.content rest (omega arith)
              path_ok w.closed))

  write_step_here : write_step (before ++ block_of) 0 ≡ some (length before + size_of, a ∷ [])
  unfolding write_step
  write_step_here = rw (
    written_found,
    write_step,
    file_attr a.path w.no_quote,
    unless_empty_ne {B = WriteAction} a.path (record { path = a.path; content = a.content })
        w.path_ne_nil,
  )

  consumed : Text
  consumed =
      before
      ++ (opening_of (codes "write") (path_attribute a.path) a.content rest
          ++ (a.content ++ codes "</write>"))

  consumed-rest : consumed ++ rest ≡ before ++ block_of
  unfolding consumed
  consumed-rest = simp append_assoc

  length-consumed : length consumed ≡ length before + size_of
  unfolding consumed
  length-consumed =
      let opening = opening_of (codes "write") (path_attribute a.path) a.content rest in
      omega (
        arith,
        length-append {0} before (opening ++ (a.content ++ codes "</write>")),
        length-append {0} opening (a.content ++ codes "</write>"),
        length-append {0} a.content (codes "</write>"),
      )

write_step_shift : (pre s : Text) → Shifted (length pre) (write_step (pre ++ s)) (write_step s)
unfolding write_step
write_step_shift pre s at = elim (Option-cases (find_block s (codes "write") at)) [
  | inl e ↦ rw (find_block_shift pre s (codes "write") at, e)
  | inr (b, e) ↦ rw (find_block_shift pre s (codes "write") at, e)
]

-- The loop goes on behind a tag as it would on the text that is left.
parse_write_cons :
    (before : Text) (a : WriteAction) (rest : Text) (w : IsWritable before a)
    (later : List WriteAction)
    → parse_write_annotations rest ≡ some later
    → parse_write_annotations (before ++ block_of before a rest w) ≡ some (a ∷ later)
unfolding parse_write_annotations
parse_write_cons before a rest w later h =
    let front = consumed before a rest w in
    let text = before ++ block_of before a rest w in
    let moved_on =
      collect-Shifted (length front) (write_step (front ++ rest)) (write_step rest)
        (write_step_shift front rest) (length rest + 1) 0 later h in
    let at : length front + 0 ≡ length before + size_of before a rest w =
      omega (arith, length-consumed before a rest w) in
    collect_cons (write_step text) (length text) (length text + 1) 0
      (length before + size_of before a rest w) (a ∷ []) later (write_step-Advances text)
      (omega arith) (omega arith) (write_step_here before a rest w) (length rest + 1)
      (rw (← at, ← consumed-rest before a rest w) moved_on)

parse_write_end : (end : Text) → Lacks b'<' end → parse_write_annotations end ≡ some []
unfolding parse_write_annotations write_step find_block
parse_write_end end no_tag =
    let none_left : find_from (codes "<write") end 0 ≡ none =
      find_from_zero (codes "<write") end
      ∙ ap (find (codes "<write")) (sym (append-nil end))
      ∙ find-append_Lacks b'<' (codes "write") end [] no_tag
      ∙ unfold find in refl in
    rw add-one (collect_stop (write_step end) (length end) 0 (rw (none_left, find_block)))

-- An answer made of plain text and whole `<write>` tags is parsed into exactly the actions of its
-- tags, in their order: each path without quotes and brackets, each content closed by its own tag.
pub parse_write-answer_text :
    (ps : List (Text × WriteAction)) (end : Text)
    → AreWritable ps
    → Lacks b'<' end
    → parse_write_annotations (answer_text ps end) ≡ some (map (λ p. p.1) ps)
unfolding parse_write_annotations
parse_write-answer_text [] end h no_tag = parse_write_end end no_tag
parse_write-answer_text ((before, a) ∷ ps) end (w, h) no_tag =
    parse_write_cons before a (answer_text ps end) w (map (λ p. p.1) ps)
      (parse_write-answer_text ps end h no_tag)
