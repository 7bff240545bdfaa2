-- ===== src/Tui/Streaming.antt =====
-- What a stream of tokens shows.
use llama_cli.Tui.Hidden.{visible}
use llama_cli.Tui.Table.{is_table_row, with_newlines, render_table}
use llama_cli.Tui.Stream.{
  Display, StreamRenderer, returned, and_then, is_hidden, flush_table_buf, flush_line,
  flush_line_plain, feed, write, flush_rest, caught, finish,
}
use llama_cli.Base.{
  ℕ, ◌≡◌, refl, sym, ap, ◌∙◌, ◌≢◌, inl, inr, Bool, true, false, List, [], ◌∷◌, ◌++◌, append-nil,
  append_assoc, arith, Bool-cases, All, Text,
}
use llama_cli.Tui.Feed.{OneLine, feed-append, write-feed, feed-OneLine, feed_line, take_content}

no_row : is_table_row [] ≢ true
unfolding is_table_row
no_row e = ground (arith, e)

module _ (display : Display) where
  -- A renderer at the start of a line outside of a block of code, with the rows of a table that it holds.
  abbrev pub at_line : Bool → Text → List Text → Text → Text → StreamRenderer
  at_line color out rows lang mermaid = record {
    out = out;
    buf = [];
    color = color;
    table_buf = rows;
    in_code_block = false;
    code_lang = lang;
    mermaid_buf = mermaid;
  }

  -- the renderer before an answer, behind what is printed already
  abbrev pub started : Bool → Text → StreamRenderer
  started color out = at_line color out [] [] []

  -- A line of text: no row of a table.
  abbrev pub IsText : Text → Type 0
  IsText w = OneLine w × (is_table_row w ≡ false)

  -- A line that is shown as it is: no tag and no row of a table.
  abbrev pub IsPlain : Text → Type 0
  IsPlain w = OneLine w × ((is_hidden w ≡ false) × (is_table_row w ≡ false))

  flush_plain :
      (w out : Text)
      → IsPlain w
      → flush_line display (record (started false out) { buf = w ++ b'\n' ∷ [] })
        ≡ returned (started false (out ++ (w ++ b'\n' ∷ [])))
  unfolding flush_line flush_line_plain flush_table_buf
  flush_plain w out (one, (shown, text)) = rw (take_content display w) (rw shown (rw text refl))

  flush_hidden :
      (w out : Text)
      → is_hidden w ≡ true
      → flush_line display (record (started false out) { buf = w ++ b'\n' ∷ [] })
        ≡ returned (started false out)
  unfolding flush_line
  flush_hidden w out hidden = rw (take_content display w) (rw hidden refl)

  feed_text :
      (lines : List Text) (out : Text)
      → All IsText lines
      → feed display (with_newlines lines) (started false out)
        ≡ returned (started false (out ++ with_newlines (visible lines)))
  unfolding with_newlines feed
  feed_text [] out text = ap (λ t. returned (started false t)) (sym (append-nil out))
  feed_text (w ∷ lines) out ((one, no_table), text) =
      let next = feed display (with_newlines lines) in
      feed_line display w (with_newlines lines) (started false out) one refl
      ∙ elim (Bool-cases (is_hidden w)) [
        | inl hidden ↦
            ap (λ o. and_then o next) (flush_hidden w out hidden)
            ∙ feed_text lines out text
            ∙ rw hidden refl
        | inr shown ↦
            ap (λ o. and_then o next) (flush_plain w out (one, (shown, no_table)))
            ∙ feed_text lines (out ++ (w ++ b'\n' ∷ [])) text
            ∙ ap (λ t. returned (started false t))
                (append_assoc out (w ++ b'\n' ∷ []) (with_newlines (visible lines))
                  ∙ ap (λ t. out ++ t)
                      (append_assoc w (b'\n' ∷ []) (with_newlines (visible lines))))
            ∙ rw shown refl
      ]

  visible_plain : (lines : List Text) → All IsPlain lines → visible lines ≡ lines
  visible_plain [] plain = refl
  visible_plain (w ∷ lines) ((one, (shown, text)), plain) =
      rw shown (ap (◌∷◌ w) (visible_plain lines plain))

  All-IsText : (lines : List Text) → All IsPlain lines → All IsText lines
  All-IsText [] plain = tt
  All-IsText (w ∷ lines) ((one, (shown, text)), plain) = ((one, text), All-IsText lines plain)

  finish_plain :
      (w out : Text)
      → w ≢ []
      → IsPlain w
      → finish display (record (started false out) { buf = w })
        ≡ started false (out ++ (w ++ b'\n' ∷ []))
  unfolding finish flush_rest flush_table_buf
  finish_plain [] out h p = absurd (h refl)
  finish_plain (c ∷ w) out h p = ap (caught display) (flush_plain (c ∷ w) out p)

  -- Without colours an answer of plain lines is shown byte for byte, a last line without its newline
  -- with one.
  pub finish-write_plain :
      (lines : List Text) (last out : Text)
      → All IsPlain lines
      → IsPlain last
      → last ≢ []
      → finish display (write display (with_newlines lines ++ last) (started false out))
        ≡ started false ((out ++ with_newlines lines) ++ (last ++ b'\n' ∷ []))
  finish-write_plain lines last out plain p filled =
      let s₁ = started false (out ++ with_newlines lines) in
      let fed : feed display (with_newlines lines) (started false out) ≡ returned s₁ =
        feed_text lines out (All-IsText lines plain)
        ∙ ap (λ l. returned (started false (out ++ with_newlines l))) (visible_plain lines plain) in
      ap (finish display) (
        write-feed display (with_newlines lines ++ last) (started false out)
          (record s₁ { buf = last })
          (feed-append display (with_newlines lines) last (started false out)
            ∙ ap (λ o. and_then o (feed display last)) fed
            ∙ feed-OneLine display last s₁ p.0))
      ∙ finish_plain last (out ++ with_newlines lines) filled p

  flush_row :
      (w out lang mermaid : Text) (color : Bool)
      → is_hidden w ≡ false
      → is_table_row w ≡ true
      → flush_line display (record (at_line color out [] lang mermaid) { buf = w ++ b'\n' ∷ [] })
        ≡ returned (at_line color out (w ∷ []) lang mermaid)
  unfolding flush_line flush_line_plain
  flush_row w out lang mermaid true shown row = rw (take_content display w) (rw shown (rw row refl))
  flush_row w out lang mermaid false shown row =
      rw (take_content display w) (rw shown (rw row refl))

  finish_row :
      (c : ℕ) (w out lang mermaid : Text) (rows : List Text) (color : Bool)
      → display.table_fails rows ≡ false
      → is_hidden (c ∷ w) ≡ false
      → is_table_row (c ∷ w) ≡ true
      → (finish display (record (at_line color out rows lang mermaid) { buf = c ∷ w })).out
        ≡ (finish display (at_line color out rows lang mermaid)).out
  unfolding finish flush_rest flush_table_buf
  finish_row c w out lang mermaid [] color whole shown row =
      ap (λ o. (caught display o).out) (flush_row (c ∷ w) out lang mermaid color shown row)
  finish_row c w out lang mermaid (r ∷ rows) color whole shown row =
      let table = render_table display.render_inline display.term_width color (r ∷ rows) in
      rw (whole, flush_table_buf)
        (ap (λ o. (caught display o).out)
          (flush_row (c ∷ w) (out ++ table) lang mermaid color shown row))

  -- The last row of a table is not shown if the answer ends without a newline behind it: whatever rows
  -- before it the renderer holds, finishing shows the same as if the row had not come. The renderer
  -- stands at the start of a line outside of a block of code, and rendering the rows does not throw.
  pub finish-drops_row :
      (row out lang mermaid : Text) (rows : List Text) (color : Bool)
      → OneLine row
      → is_hidden row ≡ false
      → is_table_row row ≡ true
      → display.table_fails rows ≡ false
      → (finish display (write display row (at_line color out rows lang mermaid))).out
        ≡ (finish display (at_line color out rows lang mermaid)).out
  finish-drops_row [] out lang mermaid rows color one shown is_row whole = absurd (no_row is_row)
  finish-drops_row (c ∷ w) out lang mermaid rows color one shown is_row whole =
      ap (λ s. (finish display s).out)
        (write-feed display (c ∷ w) (at_line color out rows lang mermaid) _
          (feed-OneLine display (c ∷ w) (at_line color out rows lang mermaid) one))
      ∙ finish_row c w out lang mermaid rows color whole shown is_row
