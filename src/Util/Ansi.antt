-- ===== src/Util/Ansi.antt =====
-- What `strip_ansi` leaves.
use llama_cli.Util.Encode.{is_letter, strip_from, strip_ansi}
use llama_cli.Base.{
  ◌≡◌, refl, ap, ◌≢◌, inl, inr, Bool, true, false, not, [], ◌∷◌, arith, ◌==◌, ne→beq, Bool-cases,
  All, Text,
}

-- The text has no escape byte.
abbrev EscapeFree : Text → Type 0
EscapeFree s = All (λ c. c ≢ 27) s

strip_from-EscapeFree : (in_escape : Bool) (s : Text) → EscapeFree (strip_from in_escape s)
unfolding strip_from
strip_from-EscapeFree in_escape [] = tt
strip_from-EscapeFree true (c ∷ s) = elim (Bool-cases (c == 27)) [
  | inl escape ↦ rw (escape, strip_from) (strip_from-EscapeFree true s)
  | inr other ↦ rw (other, strip_from) (strip_from-EscapeFree (not (is_letter c)) s)
]
strip_from-EscapeFree false (c ∷ s) = elim (Bool-cases (c == 27)) [
  | inl escape ↦ rw (escape, strip_from) (strip_from-EscapeFree true s)
  | inr other ↦ rw (other, strip_from) (ground (arith, other), strip_from-EscapeFree false s)
]

strip_from_same : (s : Text) → EscapeFree s → strip_from false s ≡ s
unfolding strip_from
strip_from_same [] free = refl
strip_from_same (c ∷ s) (other, free) =
    rw (ne→beq c 27 other, strip_from) (ap (◌∷◌ c) (strip_from_same s free))

-- `strip_ansi` leaves no escape byte, changes no text without one, and so changes nothing when it
-- is applied again.
strip_ansi_lem :
    (s : Text)
    → EscapeFree (strip_ansi s)
      × ((EscapeFree s → strip_ansi s ≡ s) × (strip_ansi (strip_ansi s) ≡ strip_ansi s))
unfolding strip_ansi
strip_ansi_lem s =
    let free = strip_from-EscapeFree false s in
    (free, (strip_from_same s, strip_from_same (strip_from false s) free))
