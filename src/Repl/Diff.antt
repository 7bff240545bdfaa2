-- ===== src/Repl/Diff.antt =====
-- src/repl/repl_annotations.cpp: `show_diff`, over the edit script that the dtl library composes.
use Prim.Native.Nat.{min}
use llama_cli.Base.Words.{getlines}
use llama_cli.Repl.Console.{
  Desk, Edit, removed, added, common, Theme, reset, newline, ReplState, print,
}
use llama_cli.Base.{
  ℕ, zero, suc, ◌+◌, ◌-◌, Bool, true, false, List, [], ◌∷◌, ◌++◌, if◌then◌else◌, length, set,
  replicate, Text, codes,
}

pub record Entry : Type 0 where
  pub edit : Edit
  pub text : Text
  pub old_ln : ℕ
  pub new_ln : ℕ

unfoldable pub is_common : Edit → Bool
is_common common = true
is_common removed = false
is_common added = false

unfoldable pub after_old : Edit → ℕ → ℕ
after_old added n = n
after_old removed n = n + 1
after_old common n = n + 1

unfoldable pub after_new : Edit → ℕ → ℕ
after_new added n = n + 1
after_new removed n = n
after_new common n = n + 1

-- the flat list with the line numbers on both sides
unfoldable pub entries_from : ℕ → ℕ → List (Edit × Text) → List Entry
entries_from oln nln [] = []
entries_from oln nln ((edit, text) ∷ script) =
    record { edit = edit; text = text; old_ln = oln; new_ln = nln }
    ∷ entries_from (after_old edit oln) (after_new edit nln) script

-- `for (j = lo; j <= hi; ++j) show[j] = true`, with the number of rounds
unfoldable pub mark : ℕ → ℕ → List Bool → List Bool
mark lo zero show = show
mark lo (suc rounds) show = mark (suc lo) rounds (set show lo true)

-- the loop over the entries, from entry `i` on, of `size` ones
unfoldable pub mark_changes : ℕ → List Entry → ℕ → List Bool → List Bool
mark_changes size [] i show = show
mark_changes size (e ∷ entries) i show =
    mark_changes size entries (suc i)
      (if is_common e.edit then show else mark (i - 3) (min (i + 3) (size - 1) + 1 - (i - 3)) show)

unfoldable pub shown : List Entry → List Bool
shown entries = mark_changes (length entries) entries 0 (replicate (length entries) false)

-- the lines of the hunk that begins here, on the old side and on the new one
unfoldable pub old_count : List Entry → List Bool → ℕ
old_count (e ∷ entries) (true ∷ show) = elim e.edit [ added ↦ 0 | _ ↦ 1 ] + old_count entries show
old_count _ _ = 0

unfoldable pub new_count : List Entry → List Bool → ℕ
new_count (e ∷ entries) (true ∷ show) = elim e.edit [ removed ↦ 0 | _ ↦ 1 ] + new_count entries show
new_count _ _ = 0

module _ (to_string : ℕ → Text) (theme : Theme) (color : Bool) where
  unfoldable pub emit_diff_line : Text → Text → Text → Text
  emit_diff_line ansi prefix line =
      if color
      then ansi ++ (prefix ++ (line ++ (reset ++ newline)))
      else prefix ++ (line ++ newline)

  abbrev styled : Text → Text
  styled text = if color then text else []

  unfoldable pub hunk_header : Entry → ℕ → ℕ → Text
  hunk_header e o_count n_count =
      styled theme.info
      ++ (codes "@@ -"
          ++ (to_string e.old_ln
              ++ (codes ","
                  ++ (to_string o_count
                      ++ (codes " +"
                          ++ (to_string e.new_ln
                              ++ (codes ","
                                  ++ (to_string n_count
                                      ++ (codes " @@" ++ (styled reset ++ newline))))))))))

  unfoldable pub diff_line : Entry → Text
  diff_line e = elim e.edit [
    | removed ↦ emit_diff_line theme.error (codes "- ") e.text
    | added ↦ emit_diff_line theme.info (codes "+ ") e.text
    | common ↦ codes "  " ++ (e.text ++ newline)
  ]

  -- the loop that prints, with `in_hunk`
  unfoldable pub emit_hunks : Bool → List Entry → List Bool → Text
  emit_hunks in_hunk [] show = []
  emit_hunks in_hunk (e ∷ entries) [] = []
  emit_hunks in_hunk (e ∷ entries) (false ∷ show) = emit_hunks false entries show
  emit_hunks in_hunk (e ∷ entries) (true ∷ show) =
      (if in_hunk
        then []
        else hunk_header e (old_count (e ∷ entries) (true ∷ show))
            (new_count (e ∷ entries) (true ∷ show)))
      ++ (diff_line e ++ emit_hunks true entries show)

module _ (desk : Desk) where
  unfoldable pub diff_text : Text → Text → Bool → Text
  diff_text old_text new_text color =
      let script = desk.diff (getlines b'\n' old_text) (getlines b'\n' new_text) in
      let entries = entries_from 1 1 script in
      emit_hunks desk.to_string desk.theme color false entries (shown entries)

  unfoldable pub show_diff : Text → Text → ReplState desk → ReplState desk
  show_diff old_text new_text s = print desk s (diff_text old_text new_text s.color)
