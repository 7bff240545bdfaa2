-- ===== src/Annotation/Runaway.antt =====
-- An answer on which `strip_annotations` never ends: the path that it writes into the summary of a
-- `<str_replace>` tag is taken from behind that tag, and is such a tag itself.
use llama_cli.Base.Search.{
  shift, find_from_behind, find-append_Lacks, find-append_clear, find_self, find_from_zero,
  find_from-shift, take_front, drop_front,
}
use llama_cli.Annotation.Strip.{
  reset, rewrite, summary, strip_write_step, strip_str_replace_step, strip_annotations,
}
use llama_cli.Base.{
  ℕ, zero, suc, ◌+◌, ◌-◌, ◌≡◌, refl, sym, ap, ◌∙◌, ◌≢◌, Option, none, some, [], ◌++◌, append_assoc,
  arith, length, take, drop, length-append, All-append, Text, codes, substr, find, find_from, Lacks,
}

abbrev pub bare_tag : Text
bare_tag = codes "<str_replace ></str_replace>"

-- A bare tag, and behind it an attribute that holds a bare tag.
abbrev pub runaway : Text → Text → Text → Text
runaway pre mid tail =
    pre ++ (bare_tag ++ (mid ++ (codes "path=\"" ++ (bare_tag ++ (codes "\"" ++ tail)))))

module _ (warning pre mid tail : Text) (no_tag : Lacks b'<' pre) (no_p : Lacks b'p' mid) where
  abbrev rest : Text
  rest = codes "path=\"" ++ (bare_tag ++ (codes "\"" ++ tail))

  abbrev path_pos : ℕ
  path_pos = length pre + (28 + (length mid + 0))

  start_found : find_from (codes "<str_replace ") (runaway pre mid tail) 0 ≡ some (length pre + 0)
  start_found =
      find_from_zero (codes "<str_replace ") (runaway pre mid tail)
      ∙ find-append_Lacks b'<' (codes "str_replace ") pre (bare_tag ++ (mid ++ rest)) no_tag
      ∙ ap (shift (length pre))
          (find_self (codes "<str_replace ") (codes "></str_replace>" ++ (mid ++ rest)))

  path_found : find_from (codes "path=\"") (runaway pre mid tail) (length pre + 0) ≡ some path_pos
  path_found =
      find_from-shift (codes "path=\"") pre (bare_tag ++ (mid ++ rest)) 0
      ∙ ap (shift (length pre)) (
          find_from_zero (codes "path=\"") (bare_tag ++ (mid ++ rest))
          ∙ find-append_clear (codes "path=\"") bare_tag (mid ++ rest) refl
          ∙ ap (shift 28) (
              find-append_Lacks b'p' (codes "ath=\"") mid rest no_p
              ∙ ap (shift (length mid))
                  (find_self (codes "path=\"") (bare_tag ++ (codes "\"" ++ tail)))))

  end_found :
      find_from (codes "</str_replace>") (runaway pre mid tail) (length pre + 0)
      ≡ some (length pre + 14)
  end_found =
      find_from-shift (codes "</str_replace>") pre (bare_tag ++ (mid ++ rest)) 0
      ∙ ap (shift (length pre)) (
          find_from_zero (codes "</str_replace>") (bare_tag ++ (mid ++ rest))
          ∙ find-append_clear (codes "</str_replace>") (codes "<str_replace >")
              (codes "</str_replace>" ++ (mid ++ rest)) refl
          ∙ ap (shift 14) (find_self (codes "</str_replace>") (mid ++ rest)))

  -- the text up to the path, and behind the first tag
  abbrev to_path : Text
  to_path = pre ++ (bare_tag ++ (mid ++ codes "path=\""))

  abbrev path_on : Text
  path_on = bare_tag ++ (codes "\"" ++ tail)

  at_path : runaway pre mid tail ≡ to_path ++ path_on
  at_path =
      ap (λ t. pre ++ (bare_tag ++ t)) (sym (append_assoc mid (codes "path=\"") path_on))
      ∙ sym (append_assoc pre (bare_tag ++ (mid ++ codes "path=\"")) path_on)

  behind_tag : runaway pre mid tail ≡ (pre ++ bare_tag) ++ (mid ++ rest)
  behind_tag = sym (append_assoc pre bare_tag (mid ++ rest))

  length-to_path : path_pos + 6 ≡ length to_path
  length-to_path = omega (
    arith,
    length-append {0} pre (bare_tag ++ (mid ++ codes "path=\"")),
    length-append {0} mid (codes "path=\""),
  )

  quote_found :
      find_from (codes "\"") (runaway pre mid tail) (path_pos + 6) ≡ some (path_pos + 6 + 28)
  quote_found =
      ap (λ t. find_from (codes "\"") t (path_pos + 6)) at_path
      ∙ find_from_behind (codes "\"") to_path path_on (path_pos + 6) length-to_path
      ∙ ap (shift (length to_path)) (
          find-append_Lacks b'"' [] bare_tag (codes "\"" ++ tail) (omega arith)
          ∙ ap (shift 28) (find_self (codes "\"") tail))
      ∙ ap some (omega (arith, length-to_path))

  path_taken :
      substr (runaway pre mid tail) (path_pos + 6) (path_pos + 6 + 28 - (path_pos + 6)) ≡ bare_tag
  path_taken =
      ap (λ t. substr t (path_pos + 6) (path_pos + 6 + 28 - (path_pos + 6))) at_path
      ∙ ap (take (path_pos + 6 + 28 - (path_pos + 6)))
          (drop_front (path_pos + 6) to_path path_on length-to_path)
      ∙ take_front (path_pos + 6 + 28 - (path_pos + 6)) bare_tag (codes "\"" ++ tail) (omega arith)

  kept_front : take (length pre + 0) (runaway pre mid tail) ≡ pre
  kept_front = take_front (length pre + 0) pre (bare_tag ++ (mid ++ rest)) (omega arith)

  kept_back :
      drop (length pre + 0 + (length pre + 14 + 14 - (length pre + 0))) (runaway pre mid tail)
      ≡ mid ++ rest
  kept_back =
      ap (drop (length pre + 0 + (length pre + 14 + 14 - (length pre + 0)))) behind_tag
      ∙ drop_front _ (pre ++ bare_tag) (mid ++ rest) (omega (arith, length-append {0} pre bare_tag))

  step_runaway :
      strip_str_replace_step warning (runaway pre mid tail)
      ≡ some (
          runaway
            (pre ++ (warning ++ codes "[proposed: str_replace "))
            (codes "]" ++ (reset ++ mid))
            tail)
  unfolding strip_str_replace_step summary
  step_runaway =
      rw (start_found, path_found, quote_found, end_found, kept_front, kept_back, path_taken)
        (ap some (simp append_assoc))

-- The loop over `<str_replace>` tags runs on for ever on such an answer: after any number of rounds
-- it has not ended.
rewrite-runaway :
    (warning : Text)
    → Lacks b'<' warning
    → (fuel : ℕ) (pre mid tail : Text) → Lacks b'<' pre
    → Lacks b'p' mid
    → rewrite (strip_str_replace_step warning) fuel (runaway pre mid tail) ≡ none
unfolding rewrite
rewrite-runaway warning plain zero pre mid tail no_tag no_p = refl
rewrite-runaway warning plain (suc fuel) pre mid tail no_tag no_p =
    rw (step_runaway warning pre mid tail no_tag no_p, rewrite)
      (rewrite-runaway warning plain fuel (pre ++ (warning ++ codes "[proposed: str_replace "))
        (codes "]" ++ (reset ++ mid)) tail
        (All-append (λ c. c ≢ b'<') pre (warning ++ codes "[proposed: str_replace ") no_tag
          (All-append (λ c. c ≢ b'<') warning (codes "[proposed: str_replace ") plain
            (omega arith)))
        (All-append (λ c. c ≢ b'p') (codes "]" ++ reset) mid (omega arith) no_p))

rewrite_stop :
    (step : Text → Option Text) (fuel : ℕ) (text : Text)
    → step text ≡ none
    → rewrite step (suc fuel) text ≡ some text
unfolding rewrite
rewrite_stop step fuel text e = rw (e, rewrite)

no_write_tag :
    (warning text : Text)
    → find (codes "<write file=\"") text ≡ none
    → strip_write_step warning text ≡ none
unfolding strip_write_step
no_write_tag warning text h =
    rw (find_from_zero (codes "<write file=\"") text ∙ h, strip_write_step)

-- `strip_annotations` does not end on an answer that holds a bare `<str_replace >` tag and, behind
-- it, a `path` attribute whose value is such a tag again, where no `<write>` tag stands in it and the
-- theme's styles hold no `<`: no number of rounds is enough.
pub strip-runaway :
    (warning info pre mid tail : Text)
    → Lacks b'<' warning
    → Lacks b'<' pre
    → Lacks b'p' mid
    → find (codes "<write file=\"") (runaway pre mid tail) ≡ none
    → (fuel : ℕ) → strip_annotations warning info fuel (runaway pre mid tail) ≡ none
unfolding strip_annotations
strip-runaway warning info pre mid tail plain no_tag no_p no_write zero = unfold rewrite in refl
strip-runaway warning info pre mid tail plain no_tag no_p no_write (suc fuel) = rw (
  rewrite_stop (strip_write_step warning) fuel (runaway pre mid tail)
      (no_write_tag warning (runaway pre mid tail) no_write),
  rewrite-runaway warning plain (suc fuel) pre mid tail no_tag no_p,
)
