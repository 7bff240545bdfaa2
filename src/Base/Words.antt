-- ===== src/Base/Words.antt =====
-- Splitting and scanning helpers of the standard library: `std::getline`, `find_first_not_of`,
-- `rfind`.
use Prim.Native.Nat.{ℕ, ◌+◌}
use mathlib.Core.Bool.{Bool, true, false, ◌||◌}
use mathlib.Core.List.{List, [], ◌∷◌, ◌++◌}
use mathlib.Core.Option.{Option, none, some}
use llama_cli.Base.Tests.{◌==◌, if◌then◌else◌}
use llama_cli.Base.Bytes.{Text, is_empty, text_eq, find}

-- the loop `while (std::getline(stream, line, sep))`: nothing behind the last separator is no line
unfoldable pub getlines_from : ℕ → Text → Text → List Text
getlines_from sep [] line = if is_empty line then [] else line ∷ []
getlines_from sep (c ∷ s) line = elim (c == sep) [
  | true ↦ line ∷ getlines_from sep s []
  | false ↦ getlines_from sep s (line ++ c ∷ [])
]

unfoldable pub getlines : ℕ → Text → List Text
unfolding getlines_from
getlines sep s = getlines_from sep s []

-- the text from the first byte that fails the test on
unfoldable pub drop_while : (ℕ → Bool) → Text → Text
drop_while p [] = []
drop_while p (c ∷ s) = if p c then drop_while p s else c ∷ s

-- the text up to the first byte that fails the test
unfoldable pub take_while : (ℕ → Bool) → Text → Text
take_while p [] = []
take_while p (c ∷ s) = if p c then c ∷ take_while p s else []

unfoldable pub any : (ℕ → Bool) → Text → Bool
any p [] = false
any p (c ∷ s) = p c || any p s

-- is the text one of these
unfoldable pub is_one_of : List Text → Text → Bool
unfolding text_eq
is_one_of [] s = false
is_one_of (t ∷ ts) s = text_eq s t || is_one_of ts s

-- `s.rfind(c)`
unfoldable pub rfind : ℕ → Text → Option ℕ
rfind c [] = none
rfind c (d ∷ s) = elim (rfind c s) [
  | some i ↦ some (1 + i)
  | none ↦ if d == c then some 0 else none
]

-- does the text contain one of these
unfoldable pub contains_any : List Text → Text → Bool
contains_any [] s = false
contains_any (tag ∷ tags) s = elim (find tag s) [ some i ↦ true | none ↦ contains_any tags s ]
