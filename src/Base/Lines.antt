-- ===== src/Base/Lines.antt =====
-- `std::getline` and the lines of a text: what it reads back of lines that were written.
use llama_cli.Base.Words.{getlines_from, getlines}
use llama_cli.Base.{
  ℕ, ◌≡◌, refl, ◌∙◌, inl, inr, [], ◌∷◌, ◌++◌, append-nil, append_assoc, arith, ◌==◌, eq→beq, ne→beq,
  Bool-cases, All, All-append, Text, is_empty, Lacks,
}

pub getlines-line :
    (sep : ℕ) (s line rest : Text)
    → Lacks sep s
    → getlines_from sep (s ++ sep ∷ rest) line ≡ (line ++ s) ∷ getlines_from sep rest []
unfolding getlines_from
getlines-line sep [] line rest h = rw (eq→beq sep, getlines_from, append-nil) refl
getlines-line sep (c ∷ s) line rest (hc, h) =
    rw (ne→beq c sep hc, getlines_from)
      (getlines-line sep s (line ++ c ∷ []) rest h ∙ rw append_assoc refl)

-- No line holds the separator.
getlines_from-Lacks :
    (sep : ℕ) (s line : Text) → Lacks sep line → All (λ l. Lacks sep l) (getlines_from sep s line)
unfolding getlines_from
getlines_from-Lacks sep [] line h = elim (Bool-cases (is_empty line)) [
  | inl e ↦ rw e tt
  | inr e ↦ rw e (h, tt)
]
getlines_from-Lacks sep (c ∷ s) line h = elim (Bool-cases (c == sep)) [
  | inl e ↦ rw (e, getlines_from) (h, getlines_from-Lacks sep s [] tt)
  | inr e ↦
      rw (e, getlines_from)
        (getlines_from-Lacks sep s (line ++ c ∷ [])
          (All-append _ line (c ∷ []) h ((λ same. ground arith), tt)))
]

pub getlines-Lacks : (sep : ℕ) (s : Text) → All (λ l. Lacks sep l) (getlines sep s)
unfolding getlines
getlines-Lacks sep s = getlines_from-Lacks sep s [] tt
