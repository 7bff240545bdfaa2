-- ===== src/Command/Exec.antt =====
-- src/exec/exec.cpp: `append_output` and `cmd_exec`. The process is what `popen` gives: the texts that
-- `fgets` reads, each with the seconds since the start at that moment, and the status that `pclose`
-- returns. `std::to_string` is an argument, and the limits are not negative.
use llama_cli.Base.Int.{ℤ, pos, negsuc}
use llama_cli.Base.{
  ℕ, ◌+◌, Bool, true, false, Option, none, some, List, [], ◌∷◌, ◌++◌, ltb, leb, ◌==◌, if◌then◌else◌,
  length, take, Text, codes,
}

pub data ExitStatus : Type 0 where
  exited : ℕ → ExitStatus
  signaled : ℕ → ExitStatus
  unknown : ExitStatus

pub record Process : Type 0 where
  pub lines : List (Text × ℕ)
  pub status : ExitStatus

pub record ExecResult : Type 0 where
  pub output : Text
  pub exit_code : ℤ
  pub timed_out : Bool

-- `output += buf` ends at the first zero byte
unfoldable pub c_string : Text → Text
c_string [] = []
c_string (c ∷ buf) = if c == 0 then [] else c ∷ c_string buf

unfoldable pub exit_code_of : ExitStatus → ℤ
exit_code_of (exited code) = pos code
exit_code_of (signaled signal) = pos (128 + signal)
exit_code_of unknown = negsuc 0

module _ (to_string : ℕ → Text) where
  abbrev pub truncation : ℕ → Text
  truncation max_chars = codes "\n[truncated at " ++ (to_string max_chars ++ codes " chars]")

  abbrev pub killed : ℕ → Text
  killed timeout_secs = codes "\n[killed: timeout after " ++ (to_string timeout_secs ++ codes "s]")

  unfoldable pub append_output : Text → Text → ℕ → Text × Bool
  append_output output buf max_chars =
      if ltb max_chars (length (output ++ c_string buf))
      then (take max_chars (output ++ c_string buf) ++ truncation max_chars, true)
      else (output ++ c_string buf, false)

  -- the loop: the output, and whether the time was up
  unfoldable pub read_output : ℕ → ℕ → List (Text × ℕ) → Text → Bool → Text × Bool
  read_output timeout_secs max_chars [] output truncated = (output, false)
  read_output timeout_secs max_chars ((buf, elapsed) ∷ lines) output truncated =
      elim (leb timeout_secs elapsed) [
        | true ↦ (output, true)
        | false ↦ elim truncated [
          | true ↦ read_output timeout_secs max_chars lines output true
          | false ↦
              read_output timeout_secs max_chars lines (append_output output buf max_chars).0
                (append_output output buf max_chars).1
        ]
      ]

  unfoldable pub cmd_exec : Option Process → ℕ → ℕ → ExecResult
  cmd_exec none timeout_secs max_chars = record {
    output = codes "Error: could not execute command";
    exit_code = negsuc 0;
    timed_out = false;
  }
  cmd_exec (some process) timeout_secs max_chars =
      let (output, timed_out) = read_output timeout_secs max_chars process.lines [] false in
      if timed_out
      then record { output = output ++ killed timeout_secs; exit_code = negsuc 0; timed_out = true }
      else record { output = output; exit_code = exit_code_of process.status; timed_out = false }
