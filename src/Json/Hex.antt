-- ===== src/Json/Hex.antt =====
-- The four digits that `escape_json` writes for a control character are read back.
use llama_cli.Json.Escape.{hex_digit}
use llama_cli.Json.Strings.{stoul_16}
use llama_cli.Base.{
  ℕ, zero, suc, ◌/◌, ◌%◌, ◌≤◌, ◌≡◌, refl, ap, ◌∙◌, inl, inr, Bool, true, false, ◌&&◌, Option, none,
  some, [], ◌∷◌, arith, ◌==◌, beq→eq, Bool-cases, Text,
}

abbrev digits_of : ℕ → Text
digits_of c = b'0' ∷ b'0' ∷ hex_digit (c / 16) ∷ hex_digit (c % 16) ∷ []

reads_back : ℕ → Bool
unfolding stoul_16
reads_back c = elim (stoul_16 (digits_of c)) [ none ↦ false | some n ↦ n == c ]

reads_back_up_to : ℕ → Bool
reads_back_up_to zero = reads_back zero
reads_back_up_to (suc c) = reads_back_up_to c && reads_back (suc c)

reads_back-at : (last c : ℕ) → c ≤ last → reads_back_up_to last ≡ true → reads_back c ≡ true
unfolding reads_back_up_to
reads_back-at zero zero le h = h
reads_back-at zero (suc c) le h = absurd (omega arith)
reads_back-at (suc last) c le h = elim (Bool-cases (c == suc last)) [
  | inl same ↦ ap reads_back (beq→eq c (suc last) same) ∙ both.1
  | inr other ↦ reads_back-at last c (ground (arith, other)) both.0
]
  where
    both : (reads_back_up_to last ≡ true) × (reads_back (suc last) ≡ true)
    both = (ground arith, ground arith)

control_table : reads_back_up_to 31 ≡ true
unfolding reads_back_up_to reads_back
control_table = refl

some_of : (o : Option ℕ) (c : ℕ) → elim o [ none ↦ false | some n ↦ n == c ] ≡ true → o ≡ some c
some_of none c h = cc
some_of (some n) c h = ap some (beq→eq n c h)

pub stoul-digits :
    (c : ℕ)
    → c ≤ 31
    → stoul_16 (b'0' ∷ b'0' ∷ hex_digit (c / 16) ∷ hex_digit (c % 16) ∷ []) ≡ some c
unfolding reads_back
stoul-digits c h = some_of (stoul_16 (digits_of c)) c (reads_back-at 31 c h control_table)
