-- ===== src/Tests/Command.antt =====
-- src/exec and src/command on concrete commands and inputs.
use llama_cli.Command.Exec.{Process, exited, cmd_exec, read_output, append_output, c_string}
use llama_cli.Command.Output.{cmd_exec-cut, cut, written, shell_code}
use llama_cli.Command.Input.{exec, parse_input, is_exit}
use llama_cli.Command.Read.{cmd_read}
use llama_cli.Base.{ℕ, ◌+◌, ◌≡◌, refl, false, none, some, [], ◌∷◌, arith, Text, codes, text_eq}

-- enough of `std::to_string` for one digit
abbrev digit : ℕ → Text
digit n = (b'0' + n) ∷ []

abbrev two_lines : Process
two_lines = record { lines = (codes "ab\n", 0) ∷ (codes "cd\n", 1) ∷ []; status = exited 3 }

cut_output : (cmd_exec digit (some two_lines) 9 4).output ≡ codes "ab\nc\n[truncated at 4 chars]"
unfolding cmd_exec read_output append_output c_string
cut_output = refl

late : (cmd_exec digit (some two_lines) 1 9).output ≡ codes "ab\n\n[killed: timeout after 1s]"
unfolding cmd_exec read_output append_output c_string
late = refl

cmd_exec-cut_example : cmd_exec digit (some two_lines) 9 4 ≡ record {
  output = cut digit 9 4 (written two_lines.lines);
  exit_code = shell_code (exited 3);
  timed_out = false;
}
cmd_exec-cut_example =
    cmd_exec-cut digit 9 4 two_lines (omega arith, (omega arith, tt))
      (
        (omega arith, (omega arith, (omega arith, tt))),
        ((omega arith, (omega arith, (omega arith, tt))), tt),
      )

bang : parse_input (codes "!ls") ≡ record { type = exec; command = []; arg = codes "ls" }
unfolding parse_input is_exit text_eq
bang = refl

-- the file goes behind the history, and its lines are counted
loaded :
    (cmd_read digit (some (codes "a\nb\n")) (codes "f") [] []).history
    ≡ record { role = codes "user"; content = codes "[file: f]\na\nb\n"; rating = []; images = [] }
      ∷ []
unfolding cmd_read
loaded = refl

unreadable : (cmd_read digit none (codes "f") [] []).out ≡ codes "Error: could not read f\n"
unfolding cmd_read
unreadable = refl
