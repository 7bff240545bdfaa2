-- ===== src/Command/Output.antt =====
-- What `cmd_exec` returns of the output of a command.
use llama_cli.Command.Exec.{
  ExitStatus, exited, signaled, unknown, Process, c_string, truncation, append_output, read_output,
  exit_code_of, cmd_exec,
}
use llama_cli.Base.Int.{ℤ, pos, negsuc}
use llama_cli.Base.{
  ℕ, ◌+◌, ne→beq, Lacks, zero, suc, ◌≤◌, ◌<◌, ◌≡◌, refl, sym, ap, ◌∙◌, inl, inr, true, false, some,
  List, [], ◌∷◌, ◌++◌, append-nil, append_assoc, arith, ltb, leb, if◌then◌else◌, ltb→lt, lt→ltb,
  le→not_ltb, not_ltb→le, Bool-cases, length, take, length-append, All, Text,
}

-- all that the command writes
unfoldable pub written : List (Text × ℕ) → Text
written [] = []
written ((buf, elapsed) ∷ lines) = buf ++ written lines

-- It writes no zero byte.
abbrev pub NoZero : List (Text × ℕ) → Type 0
NoZero lines = All (λ l. Lacks 0 l.0) lines

c_string_whole : (buf : Text) → Lacks 0 buf → c_string buf ≡ buf
unfolding c_string
c_string_whole [] h = refl
c_string_whole (c ∷ buf) (hc, h) = rw (ne→beq c 0 hc, c_string) (ap (◌∷◌ c) (c_string_whole buf h))

-- The exit code of a shell: that of the command, 128 more than a signal that ended it, or -1.
abbrev pub shell_code : ExitStatus → ℤ
shell_code (exited code) = pos code
shell_code (signaled signal) = pos (128 + signal)
shell_code unknown = negsuc 0

exit_code_of-shell_code : (status : ExitStatus) → exit_code_of status ≡ shell_code status
unfolding exit_code_of
exit_code_of-shell_code (exited code) = refl
exit_code_of-shell_code (signaled signal) = refl
exit_code_of-shell_code unknown = refl

-- No line comes when the time is up.
abbrev pub InTime : ℕ → List (Text × ℕ) → Type 0
InTime timeout_secs lines = All (λ l. l.1 < timeout_secs) lines

take-append_left : (n : ℕ) (xs ys : Text) → n ≤ length xs → take n (xs ++ ys) ≡ take n xs
take-append_left zero xs ys le = refl
take-append_left (suc n) [] ys le = absurd (omega arith)
take-append_left (suc n) (x ∷ xs) ys le = ap (◌∷◌ x) (take-append_left n xs ys (omega arith))

not_late : (timeout_secs elapsed : ℕ) → elapsed < timeout_secs → leb timeout_secs elapsed ≡ false
not_late timeout_secs elapsed lt = ground arith

module _ (to_string : ℕ → Text) (timeout_secs max_chars : ℕ) where
  -- the output cut at the limit, with a mark
  abbrev pub cut : Text → Text
  cut all =
      if ltb max_chars (length all)
      then take max_chars all ++ truncation to_string max_chars
      else all

  after_truncation :
      (lines : List (Text × ℕ)) (output : Text)
      → InTime timeout_secs lines
      → read_output to_string timeout_secs max_chars lines output true ≡ (output, false)
  unfolding read_output
  after_truncation [] output in_time = refl
  after_truncation ((buf, elapsed) ∷ lines) output (now, in_time) =
      rw (not_late timeout_secs elapsed now, read_output) (after_truncation lines output in_time)

  cut_over :
      (xs ys : Text)
      → ltb max_chars (length xs) ≡ true
      → cut (xs ++ ys) ≡ take max_chars xs ++ truncation to_string max_chars
  cut_over xs ys over =
      let far : max_chars < length xs = ltb→lt _ _ over in
      let long : ltb max_chars (length (xs ++ ys)) ≡ true =
        lt→ltb _ _ (omega (arith, length-append xs ys)) in
      rw long (
        ap (λ t. t ++ truncation to_string max_chars)
          (take-append_left max_chars xs ys (omega arith)))

  read_all :
      (lines : List (Text × ℕ)) (output : Text)
      → InTime timeout_secs lines
      → NoZero lines
      → length output ≤ max_chars
      → read_output to_string timeout_secs max_chars lines output false
        ≡ (cut (output ++ written lines), false)
  unfolding read_output written append_output
  read_all [] output in_time whole le =
      let fits : ltb max_chars (length (output ++ [])) ≡ false =
        le→not_ltb _ _ (omega (arith, length-append output [])) in
      rw fits (ap (λ o. (o, false)) (sym (append-nil output)))
  read_all ((buf, elapsed) ∷ lines) output (now, in_time) (clean, whole) le =
      let same = c_string_whole buf clean in
      elim (Bool-cases (ltb max_chars (length (output ++ buf)))) [
        | inl over ↦
            rw (not_late timeout_secs elapsed now, read_output)
              (rw (same, append_output)
                (rw over (
                  after_truncation lines _ in_time
                  ∙ ap (λ o. (o, false)) (sym (cut_over (output ++ buf) (written lines) over))
                  ∙ ap (λ all. (cut all, false)) (append_assoc output buf (written lines)))))
        | inr fits ↦
            rw (not_late timeout_secs elapsed now, read_output)
              (rw (same, append_output)
                (rw fits (
                  read_all lines (output ++ buf) in_time whole (not_ltb→le _ _ fits)
                  ∙ ap (λ all. (cut all, false)) (append_assoc output buf (written lines)))))
      ]

  -- A command that ends in time and writes no zero byte gives its exit code, 128 more than the signal
  -- if one has ended it, and all that it has written if that is within the limit, else the first
  -- `max_chars` bytes and a mark.
  pub cmd_exec-cut :
      (process : Process)
      → InTime timeout_secs process.lines
      → NoZero process.lines
      → cmd_exec to_string (some process) timeout_secs max_chars ≡ record {
        output = cut (written process.lines);
        exit_code = shell_code process.status;
        timed_out = false;
      }
  unfolding cmd_exec
  cmd_exec-cut process in_time whole =
      rw (read_all process.lines [] in_time whole (omega arith))
        (rw (exit_code_of-shell_code process.status) refl)
