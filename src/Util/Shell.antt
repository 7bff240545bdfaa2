-- ===== src/Util/Shell.antt =====
-- The quoting of `shell_escape` as a POSIX shell reads it.
use llama_cli.Util.Encode.{shell_byte, shell_body, shell_escape}
use llama_cli.Base.{
  ◌≡◌, refl, inl, inr, true, false, Option, none, some, [], ◌∷◌, ◌++◌, ◌==◌, beq→eq, Bool-cases,
  ◌>>=◌, Text, codes,
}

-- How a shell reads one word, by POSIX: in single quotes all bytes but the quote stand for
-- themselves, outside of them a backslash quotes the next byte. `none` is a word that does not end,
-- or that has a byte outside of quotes.
pub data Mode : Type 0 where
  bare : Mode
  quoted : Mode
  escaped : Mode

unfoldable pub read_word : Mode → Text → Option Text
read_word bare [] = some []
read_word quoted [] = none
read_word escaped [] = none
read_word bare (c ∷ s) = elim (c == b'\'') [
  | true ↦ read_word quoted s
  | false ↦ elim (c == b'\\') [ true ↦ read_word escaped s | false ↦ none ]
]
read_word quoted (c ∷ s) = elim (c == b'\'') [
  | true ↦ read_word bare s
  | false ↦ read_word quoted s >>= λ later. some (c ∷ later)
]
read_word escaped (c ∷ s) = read_word bare s >>= λ later. some (c ∷ later)

read-shell_body : (s : Text) → read_word quoted (shell_body s ++ codes "'") ≡ some s
unfolding shell_body shell_byte read_word
read-shell_body [] = refl
read-shell_body (c ∷ s) = elim (Bool-cases (c == b'\'')) [
  | inl quote ↦ rw (beq→eq c b'\'' quote) (rw (read-shell_body s))
  | inr other ↦ rw (other, shell_byte) (rw (other, read_word) (rw (read-shell_body s)))
]

-- A shell reads an escaped text as one word, the text itself, whatever bytes it has.
pub read-shell_escape : (s : Text) → read_word bare (shell_escape s) ≡ some s
unfolding shell_escape read_word
read-shell_escape s = read-shell_body s
