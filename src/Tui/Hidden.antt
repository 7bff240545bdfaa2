-- ===== src/Tui/Hidden.antt =====
-- Which lines of an answer StreamRenderer of src/tui/markdown_stream.cpp hides.
use llama_cli.Base.Search.{HasPart, find-HasPart, find-none-HasPart}
use llama_cli.Base.Words.{contains_any}
use llama_cli.Tui.Stream.{is_hidden, hidden_tags}
use llama_cli.Base.{
  ◌↔◌, codes, find, Option-cases, ◌≡◌, refl, ◌⊎◌, inl, inr, true, List, [], ◌∷◌, if◌then◌else◌,
  Bool-cases, Text,
}

-- the tags of the answers, opening and closing
abbrev tags : List Text
tags =
    codes "<exec>"
    ∷ codes "</exec>"
    ∷ codes "<write "
    ∷ codes "</write>"
    ∷ codes "<str_replace "
    ∷ codes "</str_replace>"
    ∷ codes "<add_line "
    ∷ codes "<delete_line "
    ∷ codes "<read "
    ∷ codes "<search>"
    ∷ codes "</search>"
    ∷ []

-- One of the tags stands in the line.
abbrev pub HoldsTag : List Text → Text → Type 0
HoldsTag [] w = ⊥
HoldsTag (tag ∷ others) w = HasPart tag w ⊎ HoldsTag others w

-- The second list is what is shown of the first: the lines without a tag, in their order.
abbrev pub AreShown : List Text → List Text → Type 0
AreShown [] shown = shown ≡ []
AreShown (w ∷ lines) shown =
    (HoldsTag tags w × AreShown lines shown)
    ⊎ (¬ (HoldsTag tags w) × ((rest : List Text) × ((shown ≡ w ∷ rest) × AreShown lines rest)))

contains_any-HoldsTag :
    (list : List Text) (w : Text) → (contains_any list w ≡ true) ↔ HoldsTag list w
unfolding contains_any
contains_any-HoldsTag [] w = ((λ e. absurd (cc)), (λ h. absurd h))
contains_any-HoldsTag (tag ∷ list) w = elim (Option-cases (find tag w)) [
  | inl f ↦
      let (there, back) = contains_any-HoldsTag list w in
      (
        (λ e. inr (there (rw (f, contains_any) at e))),
        (λ h. elim h [
          | inl part ↦ absurd (find-none-HasPart tag w f part)
          | inr later ↦ rw (f, contains_any) (back later)
        ]),
      )
  | inr (i, f) ↦ ((λ e. inl (find-HasPart tag w i f)), (λ h. rw (f, contains_any) refl))
]

is_hidden-HoldsTag : (w : Text) → (is_hidden w ≡ true) ↔ HoldsTag tags w
unfolding is_hidden hidden_tags
is_hidden-HoldsTag w = contains_any-HoldsTag tags w

-- the lines that are not hidden
abbrev pub visible : List Text → List Text
visible [] = []
visible (w ∷ lines) = if is_hidden w then visible lines else w ∷ visible lines

pub visible-AreShown : (lines : List Text) → AreShown lines (visible lines)
visible-AreShown [] = refl
visible-AreShown (w ∷ lines) = elim (Bool-cases (is_hidden w)) [
  | inl e ↦ rw e (inl ((is_hidden-HoldsTag w).0 e, visible-AreShown lines))
  | inr e ↦
      let none_held : ¬ (HoldsTag tags w) =
        λ h. let e' = (is_hidden-HoldsTag w).1 h in absurd (cc) in
      rw e (inr (none_held, (visible lines, (refl, visible-AreShown lines))))
]
