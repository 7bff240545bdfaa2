-- ===== src/Tests/Tui.antt =====
-- src/tui on concrete tables and answers.
use llama_cli.Base.Words.{drop_while, contains_any}
use llama_cli.Tui.Table.{
  is_table_row, is_table_separator, only_rules, trim, trim_end, cells_from, parse_table_cells,
  row_line, table_line, column_widths, render_table, with_newlines, measure, max_widths, widen,
  num_cols, total_content, available, col_width, table_lines, sep_line, sep_cells, row_cells,
  padded,
}
use llama_cli.Tui.Cells.{parse_table_cells-row_line}
use llama_cli.Tui.Aligned.{table_lines-IsAligned, IsAligned}
use llama_cli.Tui.Stream.{
  Display, undrawn, feed, flush_line, flush_line_plain, flush_table_buf, write, finish, is_hidden,
  hidden_tags,
}
use llama_cli.Tui.Feed.{write_all}
use llama_cli.Tui.Streaming.{started, at_line, finish-write_plain, finish-drops_row}
use llama_cli.Base.{
  ◌≡◌, refl, true, false, List, [], ◌∷◌, ◌++◌, map, arith, replicate, All, Text, codes, find,
  starts_with,
}

abbrev as_is : Text → Text
as_is s = s

abbrev plain_display : Display
plain_display = record {
  term_width = 80;
  render_inline = as_is;
  highlight_line = λ line lang. line;
  render_diagram = λ source. undrawn;
  table_fails = λ rows. false;
  line_fails = λ content. false;
  code_fails = λ content lang. false;
}

abbrev broken_display : Display
broken_display = record plain_display { table_fails = λ rows. true }

abbrev header_row : Text
header_row = codes "| a | bc |"

two_cells : parse_table_cells header_row ≡ codes "a" ∷ codes "bc" ∷ []
unfolding parse_table_cells is_table_row cells_from trim trim_end drop_while
two_cells = refl

narrow_table :
    render_table as_is 0 false (header_row ∷ codes "|-|-|" ∷ []) ≡ codes "| a | bc | \n|---|----|\n"
unfolding render_table parse_table_cells is_table_row is_table_separator only_rules cells_from trim
    trim_end drop_while column_widths num_cols max_widths widen measure total_content available
    col_width table_lines table_line sep_line sep_cells row_line row_cells padded with_newlines
narrow_table = refl

parse_table_cells-row_line_example :
    parse_table_cells (row_line as_is false (codes "a " ∷ codes "bc" ∷ []) (3 ∷ 2 ∷ 4 ∷ []))
    ≡ map trim (codes "a " ∷ codes "bc" ∷ []) ++ replicate 1 []
parse_table_cells-row_line_example =
    parse_table_cells-row_line as_is (codes "a " ∷ codes "bc" ∷ []) (3 ∷ 2 ∷ 4 ∷ [])
      ((omega arith, (omega arith, tt)), ((omega arith, (omega arith, tt)), tt)) (omega arith)

abbrev small_table : List Text
small_table = header_row ∷ codes "|-|-|" ∷ []

table_lines-IsAligned_example :
    All (IsAligned as_is (column_widths 80 false small_table)) small_table
table_lines-IsAligned_example = table_lines-IsAligned as_is 80 small_table

abbrev tagged : List Text
tagged = codes "a" ∷ codes "<exec>" ∷ []

only_a :
    (write_all plain_display
      (codes "a" ∷ codes "\n<ex" ∷ codes "ec>\n" ∷ [])
      (started plain_display false [])).out
    ≡ codes "a\n"
unfolding write_all write feed flush_line flush_line_plain flush_table_buf is_hidden contains_any
    hidden_tags find starts_with is_table_row
only_a = refl

shown_a : is_hidden (codes "a") ≡ false
unfolding is_hidden contains_any hidden_tags find
shown_a = refl

shown_b : is_hidden (codes "b") ≡ false
unfolding is_hidden contains_any hidden_tags find
shown_b = refl

shown_row : is_hidden (codes "|a|") ≡ false
unfolding is_hidden contains_any hidden_tags find
shown_row = refl

finish-write_plain_example :
    finish plain_display (
      write plain_display
        (with_newlines (codes "a" ∷ []) ++ codes "b")
        (started plain_display false (codes ">")))
    ≡ started plain_display false ((codes ">" ++ with_newlines (codes "a" ∷ [])) ++ codes "b\n")
finish-write_plain_example =
    finish-write_plain plain_display (codes "a" ∷ []) (codes "b") (codes ">")
      (((omega arith, tt), (shown_a, unfold is_table_row in refl)), tt)
      ((omega arith, tt), (shown_b, unfold is_table_row in refl)) cc

-- at an exception the token is printed as it is, and its rest is not read
on_error :
    (write broken_display
      (codes "a\n|")
      (write broken_display (codes "|b|\n") (started broken_display false []))).out
    ≡ codes "a\n|"
unfolding write feed flush_line flush_line_plain flush_table_buf is_hidden contains_any hidden_tags
    find starts_with is_table_row
on_error = refl

finish-drops_row_example :
    (finish plain_display (
      write plain_display
        (codes "|a|")
        (at_line plain_display true (codes ">") (header_row ∷ codes "|-|-|" ∷ []) [] []))).out
    ≡ (finish plain_display
        (at_line plain_display true (codes ">") (header_row ∷ codes "|-|-|" ∷ []) [] [])).out
finish-drops_row_example =
    finish-drops_row plain_display (codes "|a|") (codes ">") [] [] (header_row ∷ codes "|-|-|" ∷ [])
      true (omega arith, (omega arith, (omega arith, tt))) shown_row (unfold is_table_row in refl)
      refl
