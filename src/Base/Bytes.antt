-- ===== src/Base/Bytes.antt =====
-- `std::string` as a list of bytes, with the members that the program calls. A position behind the
-- end reads as `'\0'`, and `find` from behind the end is `npos`, which is `none` here.
use Prim.Native.Char.{code}
use Prim.Native.String.{String}
use Prim.Native.Nat.{ℕ, ◌+◌}
use mathlib.Core.Path.{◌≡◌}
use mathlib.Core.Logic.{◌≢◌, ◌↔◌}
use mathlib.Core.Bool.{Bool, true, false, ◌&&◌}
use mathlib.Core.List.{List, [], ◌∷◌}
use mathlib.Core.Option
use mathlib.Core.Option.{Option, none, some}
use native.Mathlib.Omega.{arith}
use llama_cli.Base.Lists.{length, drop, take, get_or, All}
use llama_cli.Base.Tests.{ltb, ◌==◌, if◌then◌else◌}

abbrev pub Text : Type 0
Text = List ℕ

-- the code points of a literal; these are its bytes when the text is ASCII
abbrev pub codes : String → Text
codes String.[] = []
codes (String.◌∷◌ c s) = code c ∷ codes s

-- `s.empty()`
abbrev pub is_empty {ℓ} : {A : Type ℓ} → List A → Bool
is_empty [] = true
is_empty (x ∷ xs) = false

-- `s == t`
unfoldable pub text_eq : Text → Text → Bool
text_eq [] [] = true
text_eq (x ∷ xs) (y ∷ ys) = x == y && text_eq xs ys
text_eq _ _ = false

pub text_eq_iff : (a b : Text) → (text_eq a b ≡ true) ↔ (a ≡ b)
unfolding text_eq
text_eq_iff (x ∷ a) (y ∷ b) = ground (arith, text_eq_iff a b)
text_eq_iff _ _ = ground arith

-- `s[i]`
abbrev pub char_at : Text → ℕ → ℕ
char_at s i = get_or s i 0

-- `s.substr(pos, n)`, `s.substr(pos)` for a position that is not behind the end
abbrev pub substr : Text → ℕ → ℕ → Text
substr s pos n = take n (drop pos s)

-- does the text begin with the needle
unfoldable pub starts_with : Text → Text → Bool
starts_with [] s = true
starts_with (x ∷ n) [] = false
starts_with (x ∷ n) (c ∷ s) = x == c && starts_with n s

-- the first position of the needle
unfoldable pub find : Text → Text → Option ℕ
unfolding starts_with
find n [] = if is_empty n then some 0 else none
find n (c ∷ s) = if starts_with n (c ∷ s) then some 0 else Option.map (λ i. 1 + i) (find n s)

-- `s.find(n, pos)`
unfoldable pub find_from : Text → Text → ℕ → Option ℕ
unfolding find
find_from n s pos =
    if ltb (length s) pos then none else Option.map (λ i. pos + i) (find n (drop pos s))

abbrev pub Lacks : ℕ → Text → Type 0
Lacks b = All (λ c. c ≢ b)
