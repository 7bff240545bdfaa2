-- ===== src/Annotation/Repair.antt =====
-- src/annotation/annotation.cpp: `fix_malformed_tags`. A loop on fuel gives `none` while it still runs.
use llama_cli.Annotation.Strip.{splice}
use llama_cli.Base.{
  ℕ, zero, suc, ◌+◌, ◌-◌, Bool, false, Option, none, some, List, [], ◌∷◌, ltb, if◌then◌else◌, ◌>>=◌,
  length, Text, codes, is_empty, text_eq, substr, find_from,
}

pub record Tag : Type 0 where
  pub open_tag : Text
  pub close : Text

abbrev tag : Text → Text → Tag
tag open_tag close = record { open_tag = open_tag; close = close }

-- the table; the last two close themselves
unfoldable pub repaired_tags : List Tag
repaired_tags =
    tag (codes "<exec>") (codes "</exec>")
    ∷ tag (codes "<write ") (codes "</write>")
    ∷ tag (codes "<str_replace ") (codes "</str_replace>")
    ∷ tag (codes "<search>") (codes "</search>")
    ∷ tag (codes "<add_line ") []
    ∷ tag (codes "<delete_line ") []
    ∷ []

-- the name, without the bracket and what follows the name
unfoldable pub inner_name : Tag → Text
inner_name t = substr t.open_tag 1 (length t.open_tag - 2)

-- Does the closing tag at `bad` belong to an element that was opened behind `search_from`?
unfoldable pub is_inner : List Tag → Text → Text → ℕ → ℕ → Bool
is_inner [] text bad_name search_from bad = false
is_inner (t ∷ tags) text bad_name search_from bad =
    if text_eq bad_name (inner_name t)
    then elim (find_from t.open_tag text search_from) [ none ↦ false | some at ↦ ltb at bad ]
    else is_inner tags text bad_name search_from bad

-- a closing tag from a position on, and its bracket
unfoldable pub next_closer : Text → ℕ → Option (ℕ × ℕ)
next_closer text search_from = do
  bad ← find_from (codes "</") text search_from
  gt ← find_from (codes ">") text bad
  some (bad, gt)

-- the inner loop: the first closing tag that belongs to no inner element, if there is one
unfoldable pub bad_closer : ℕ → Text → ℕ → Option (Option (ℕ × ℕ))
bad_closer zero text search_from = none
bad_closer (suc fuel) text search_from = elim (next_closer text search_from) [
  | none ↦ some none
  | some (bad, gt) ↦
      let later = bad_closer fuel text (gt + 1) in
      if is_inner repaired_tags text (substr text (bad + 2) (gt - bad - 2)) search_from bad
      then later
      else some (some (bad, gt))
]

-- is the first closer of the tag at `start` before the next opener?
unfoldable pub closed_at : Tag → Text → ℕ → Option ℕ
closed_at t text start = elim (find_from t.close text start) [
  | none ↦ none
  | some correct ↦ elim (find_from t.open_tag text (start + 1)) [
    | none ↦ some correct
    | some next_open ↦ if ltb correct next_open then some correct else none
  ]
]

-- a round of the loop of a tag: the position and the text that follow, if the loop goes on
unfoldable pub repair_step : Tag → Text → ℕ → Option (Option (ℕ × Text))
repair_step t text pos = elim (find_from t.open_tag text pos) [
  | none ↦ some none
  | some start ↦
      if is_empty t.close
      then some (some (start + length t.open_tag, text))
      else elim (closed_at t text start) [
        | some correct ↦ some (some (correct + length t.close, text))
        | none ↦ elim (bad_closer (length text + 1) text (start + length t.open_tag)) [
          | none ↦ none
          | some none ↦ some none
          | some (some (bad, gt)) ↦
              some (some (bad + length t.close, splice text bad (gt - bad + 1) t.close))
        ]
      ]
]

unfoldable pub repair_tag : Tag → ℕ → Text → ℕ → Option Text
repair_tag t zero text pos = none
repair_tag t (suc fuel) text pos = elim (repair_step t text pos) [
  | none ↦ none
  | some none ↦ some text
  | some (some (next, repaired)) ↦ repair_tag t fuel repaired next
]

unfoldable pub repair_tags : List Tag → Text → Option Text
repair_tags [] text = some text
repair_tags (t ∷ tags) text = do
  repaired ← repair_tag t (length text + 1) text 0
  repair_tags tags repaired

unfoldable pub fix_malformed_tags : Text → Option Text
fix_malformed_tags text = repair_tags repaired_tags text
