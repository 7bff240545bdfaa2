-- ===== src/Annotation/Numbers.antt =====
-- `std::stoi`, which the parsers of line numbers call. `none` is an exception: no digit, or out of
-- the range of `int`.
use llama_cli.Base.Int.{ℤ, pos, negsuc}
use llama_cli.Base.{
  ℕ, zero, suc, ◌+◌, ◌-◌, ◌*◌, ◌^◌, Bool, true, false, ◌&&◌, ◌||◌, Option, none, some, [], ◌∷◌, ltb,
  leb, ◌==◌, if◌then◌else◌, ◌>>=◌, Text,
}

is_c_space : ℕ → Bool
is_c_space c = c == b' ' || (leb 9 c && leb c 13)

skip_c_space : Text → Text
skip_c_space [] = []
skip_c_space (c ∷ s) = if is_c_space c then skip_c_space s else c ∷ s

abbrev is_digit : ℕ → Bool
is_digit c = leb b'0' c && leb c b'9'

digits : Text → ℕ → ℕ
digits [] n = n
digits (c ∷ s) n = elim (is_digit c) [ true ↦ digits s (n * 10 + (c - b'0')) | false ↦ n ]

number : Text → Option ℕ
number [] = none
number (c ∷ s) = if is_digit c then some (digits (c ∷ s) 0) else none

negative : ℕ → Option ℤ
negative zero = some (pos 0)
negative (suc n) = if ltb n (2 ^ 31) then some (negsuc n) else none

positive : ℕ → Option ℤ
positive n = if ltb n (2 ^ 31) then some (pos n) else none

signed : Text → Option ℤ
signed [] = none
signed (c ∷ s) =
    if c == b'-'
    then number s >>= negative
    else if c == b'+'
    then number s >>= positive
    else (number (c ∷ s) >>= positive)

unfoldable pub stoi : Text → Option ℤ
unfolding is_c_space skip_c_space digits number negative positive signed
stoi s = signed (skip_c_space s)
