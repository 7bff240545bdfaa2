-- ===== src/Tui/Stream.antt =====
-- src/tui/markdown_stream.cpp: `StreamRenderer`. The rendering inside of a line, the highlighter, the
-- renderer of diagrams and the terminal's width are the display's, and so is where they throw.
use llama_cli.Base.Words.{contains_any}
use llama_cli.Tui.Table.{is_table_row, trim, render_table}
use llama_cli.Tui.Lines.{is_horizontal_rule, try_heading, try_list}
use llama_cli.Base.{
  ℕ, zero, suc, ◌-◌, Bool, true, false, not, ◌&&◌, List, [], ◌∷◌, ◌++◌, ltb, ◌==◌, if◌then◌else◌,
  length, take, drop, Text, codes, is_empty, text_eq, char_at, starts_with,
}

-- a diagram that was written, none that can be rendered, or an exception behind a part of it
pub data Diagram : Type 0 where
  drawn : Text → Diagram
  undrawn : Diagram
  broken : Text → Diagram

-- `table_fails`, `line_fails` and `code_fails`: rendering these rows, this line or this line of code
-- throws.
pub record Display : Type 0 where
  pub term_width : ℕ
  pub render_inline : Text → Text
  pub highlight_line : Text → Text → Text
  pub render_diagram : Text → Diagram
  pub table_fails : List Text → Bool
  pub line_fails : Text → Bool
  pub code_fails : Text → Text → Bool

pub record StreamRenderer : Type 0 where
  pub out : Text
  pub buf : Text
  pub color : Bool
  pub table_buf : List Text
  pub in_code_block : Bool
  pub code_lang : Text
  pub mermaid_buf : Text

-- the renderer behind a call, or at the moment of an exception
pub data Flushed : Type 0 where
  returned : StreamRenderer → Flushed
  thrown : StreamRenderer → Flushed

abbrev pub and_then : Flushed → (StreamRenderer → Flushed) → Flushed
and_then (returned s) next = next s
and_then (thrown s) next = thrown s

unfoldable pub hidden_tags : List Text
hidden_tags =
    codes "<exec>"
    ∷ codes "</exec>"
    ∷ codes "<write "
    ∷ codes "</write>"
    ∷ codes "<str_replace "
    ∷ codes "</str_replace>"
    ∷ codes "<add_line "
    ∷ codes "<delete_line "
    ∷ codes "<read "
    ∷ codes "<search>"
    ∷ codes "</search>"
    ∷ []

unfoldable pub is_hidden : Text → Bool
is_hidden content = contains_any hidden_tags content

abbrev pub print : StreamRenderer → Text → StreamRenderer
print s text = record s { out = s.out ++ text }

abbrev pub reset : Text
reset = 27 ∷ codes "[0m"

abbrev pub dim : Text
dim = 27 ∷ codes "[2m"

abbrev newline : Text
newline = b'\n' ∷ []

-- "────────────────────": 20 times three bytes
unfoldable pub long_rule : ℕ → Text
long_rule zero = []
long_rule (suc n) = 226 ∷ 148 ∷ 128 ∷ long_rule n

module _ (display : Display) where
  open display use {
    term_width, render_inline, highlight_line, render_diagram, table_fails, line_fails, code_fails,
  }

  unfoldable pub flush_table_buf : StreamRenderer → Flushed
  flush_table_buf s = elim s.table_buf [
    | [] ↦ returned s
    | row ∷ rows ↦
        if table_fails s.table_buf
        then thrown s
        else returned
            (record (print s (render_table render_inline term_width s.color s.table_buf)) {
              table_buf = [];
            })
  ]

  abbrev buffer_row : StreamRenderer → Text → StreamRenderer
  buffer_row s content = record s { table_buf = s.table_buf ++ content ∷ [] }

  unfoldable pub flush_line_plain : Text → Text → StreamRenderer → Flushed
  flush_line_plain content line s =
      if is_table_row content
      then returned (buffer_row s content)
      else and_then (flush_table_buf s) (λ s₁. returned (print s₁ line))

  -- the bar before a quote is printed first
  abbrev quote_bar : Text
  quote_bar = dim ++ ((226 ∷ 148 ∷ 130 ∷ []) ++ (reset ++ codes " "))

  unfoldable pub render_quote : Text → Text
  render_quote content =
      let quoted =
        if ltb 1 (length content) && char_at content 1 == b' '
        then drop 2 content
        else drop 1 content in
      quote_bar ++ (render_inline quoted ++ newline)

  unfoldable pub is_quote : Text → Bool
  is_quote content =
      not (char_at content 0 == b'#' && not (is_empty (try_heading content)))
      && (not (is_horizontal_rule content) && (not (is_empty content) && char_at content 0 == b'>'))

  unfoldable pub rendered_content : Text → Text
  rendered_content content =
      let heading = try_heading content in
      let item = try_list render_inline content in
      if char_at content 0 == b'#' && not (is_empty heading)
      then heading
      else if is_horizontal_rule content
      then dim ++ (long_rule 20 ++ (reset ++ newline))
      else if not (is_empty content) && char_at content 0 == b'>'
      then render_quote content
      else if not (is_empty item)
      then item
      else render_inline content ++ newline

  unfoldable pub render_content_line : Text → StreamRenderer → Flushed
  render_content_line content s =
      if line_fails content
      then thrown (if is_quote content then print s quote_bar else s)
      else returned (print s (rendered_content content))

  -- "```"
  unfoldable pub is_fence : Text → Bool
  is_fence content = starts_with (codes "```") content

  unfoldable pub toggle_fence : Text → StreamRenderer → StreamRenderer
  toggle_fence line s =
      print (record s { in_code_block = not s.in_code_block }) (dim ++ (line ++ reset))

  unfoldable pub open_fence : Text → Text → StreamRenderer → StreamRenderer
  open_fence content line s =
      let lang = trim (drop 3 content) in
      let fenced = record s { code_lang = lang; mermaid_buf = [] } in
      if text_eq lang (codes "mermaid")
      then record fenced { in_code_block = true }
      else toggle_fence line fenced

  -- the source of a diagram as a block of code
  abbrev as_code : Text → Text
  as_code source =
      dim
      ++ (codes "```mermaid"
          ++ (newline ++ (reset ++ (source ++ (dim ++ (codes "```" ++ (newline ++ reset)))))))

  abbrev diagram_closed : StreamRenderer → Text → Flushed
  diagram_closed s shown =
      returned (record (print s shown) { mermaid_buf = []; code_lang = []; in_code_block = false })

  unfoldable pub close_diagram : StreamRenderer → Flushed
  close_diagram s = elim (render_diagram s.mermaid_buf) [
    | drawn diagram ↦ diagram_closed s diagram
    | undrawn ↦ diagram_closed s (as_code s.mermaid_buf)
    | broken part ↦ thrown (print s part)
  ]

  unfoldable pub close_fence : Text → StreamRenderer → Flushed
  close_fence line s =
      if text_eq s.code_lang (codes "mermaid") && not (is_empty s.mermaid_buf)
      then close_diagram s
      else returned (toggle_fence line (record s { code_lang = [] }))

  unfoldable pub code_line : Text → StreamRenderer → Flushed
  code_line content s =
      if text_eq s.code_lang (codes "mermaid")
      then returned (record s { mermaid_buf = s.mermaid_buf ++ (content ++ newline) })
      else if code_fails content s.code_lang
      then thrown s
      else returned (print s (highlight_line content s.code_lang ++ newline))

  -- what `flush_line` does with colours behind the tables
  unfoldable pub block_line : Text → Text → StreamRenderer → Flushed
  block_line content line s =
      if is_fence content
      then (if s.in_code_block then close_fence line s else returned (open_fence content line s))
      else if s.in_code_block
      then code_line content s
      else render_content_line content s

  unfoldable pub flush_line : StreamRenderer → Flushed
  flush_line s =
      let line = s.buf in
      let content = take (length line - 1) line in
      let taken = record s { buf = [] } in
      if is_hidden content
      then returned taken
      else if not s.color
      then flush_line_plain content line taken
      else if not s.in_code_block && is_table_row content
      then returned (buffer_row taken content)
      else and_then (flush_table_buf taken) (block_line content line)

  -- the loop of `write`
  unfoldable pub feed : Text → StreamRenderer → Flushed
  feed [] s = returned s
  feed (c ∷ token) s =
      let s₁ = record s { buf = s.buf ++ c ∷ [] } in
      and_then (if c == b'\n' then flush_line s₁ else returned s₁) (feed token)

  -- at an exception the whole token is printed
  unfoldable pub write : Text → StreamRenderer → StreamRenderer
  write token s = elim (feed token s) [ returned s₁ ↦ s₁ | thrown s₁ ↦ print s₁ token ]

  -- the rest of the buffer, as a line
  unfoldable pub flush_rest : StreamRenderer → Flushed
  flush_rest s =
      if is_empty s.buf then returned s else flush_line (record s { buf = s.buf ++ newline })

  -- at an exception the buffer is printed and cleared
  abbrev pub caught : Flushed → StreamRenderer
  caught (returned s) = if s.in_code_block then print s reset else s
  caught (thrown s) = record (print s s.buf) { buf = [] }

  unfoldable pub finish : StreamRenderer → StreamRenderer
  finish s = caught (and_then (flush_table_buf s) flush_rest)
