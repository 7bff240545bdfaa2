-- ===== src/Tui/Visible.antt =====
-- The loop of `visible_length` ends, and counts no more than there is.
use llama_cli.Base.Search.{find_from_bounds}
use llama_cli.Tui.Table.{
  marked, code_span, link, italic, first_of, visible_step, visible_from, visible_length,
}
use llama_cli.Base.{
  ℕ, zero, suc, ◌+◌, ◌≤◌, ◌<◌, ◌≡◌, refl, inl, inr, Option, none, some, List, [], ◌∷◌, arith, ltb,
  ltb→lt, Bool-cases, Option-cases, length, All, Text, codes, find_from,
}

-- A round at `i` stays in the text, moves on, and adds no more than it moves.
abbrev pub Moves : Text → ℕ → ℕ × ℕ → Type 0
Moves text i r = (i < r.1) × ((r.1 ≤ length text) × (r.0 + i ≤ r.1))

MovesIfAny : Text → ℕ → Option (ℕ × ℕ) → Type 0
MovesIfAny text i o = (r : ℕ × ℕ) → o ≡ some r → Moves text i r

module _ (text : Text) (i : ℕ) where
  marked-Moves : (mark : Text) → 0 < length mark → MovesIfAny text i (marked mark text i)
  unfolding marked MovesIfAny
  marked-Moves mark h r e = elim (Option-cases (find_from mark text (i + length mark))) [
    | inl none_there ↦ ground (arith, none_there, e)
    | inr (end, at) ↦ ground (arith, at, e, find_from_bounds mark text (i + length mark) end at)
  ]

  code_span-Moves : MovesIfAny text i (code_span text i)
  unfolding code_span MovesIfAny
  code_span-Moves r e = elim (Option-cases (find_from (codes "`") text (i + 1))) [
    | inl none_there ↦ ground (arith, none_there, e)
    | inr (end, at) ↦ ground (arith, at, e, find_from_bounds (codes "`") text (i + 1) end at)
  ]

  italic-Moves : MovesIfAny text i (italic text i)
  unfolding italic MovesIfAny
  italic-Moves r e = elim (Option-cases (find_from (codes "*") text (i + 1))) [
    | inl none_there ↦ ground (arith, none_there, e)
    | inr (end, at) ↦ ground (arith, at, e, find_from_bounds (codes "*") text (i + 1) end at)
  ]

  link-Moves : MovesIfAny text i (link text i)
  unfolding link MovesIfAny
  link-Moves r e = elim (Option-cases (find_from (codes "]") text (i + 1))) [
    | inl none_there ↦ ground (arith, none_there, e)
    | inr (cb, at) ↦ elim (Option-cases (find_from (codes ")") text (cb + 2))) [
      | inl open_end ↦ ground (arith, at, open_end, e)
      | inr (cp, at_end) ↦ ground (
        arith,
        at,
        at_end,
        e,
        find_from_bounds (codes "]") text (i + 1) cb at,
        find_from_bounds (codes ")") text (cb + 2) cp at_end,
      )
    ]
  ]

  AllMove : List (Option (ℕ × ℕ)) → Type 0
  AllMove = All (MovesIfAny text i)

  first_of-Moves :
      (os : List (Option (ℕ × ℕ))) (d : ℕ × ℕ)
      → AllMove os
      → Moves text i d
      → Moves text i (first_of os d)
  unfolding first_of MovesIfAny AllMove
  first_of-Moves [] d hs hd = hd
  first_of-Moves (none ∷ os) d (h, hs) hd = first_of-Moves os d hs hd
  first_of-Moves (some r ∷ os) d (h, hs) hd = h r refl

  visible_step-Moves : i < length text → Moves text i (visible_step text i)
  unfolding visible_step AllMove
  visible_step-Moves lt =
      first_of-Moves _ (1, i + 1)
        (
          marked-Moves (codes "***") (omega arith),
          (
            marked-Moves (codes "**") (omega arith),
            (
              marked-Moves (codes "~~") (omega arith),
              (code_span-Moves, (link-Moves, (italic-Moves, tt))),
            ),
          ),
        )
        (omega arith, (omega arith, omega arith))

visible_from_total :
    (text : Text) (rounds i : ℕ)
    → i ≤ length text
    → length text < i + rounds
    → (n : ℕ) × ((visible_from text rounds i ≡ some n) × (n + i ≤ length text))
unfolding visible_from
visible_from_total text zero i le h = absurd (omega arith)
visible_from_total text (suc rounds) i le h = elim (Bool-cases (ltb i (length text))) [
  | inr past ↦ (0, (rw (past, visible_from), omega arith))
  | inl here ↦
      let (far, (near, added)) = visible_step-Moves text i (ltb→lt _ _ here) in
      let (n, (e, bound)) =
        visible_from_total text rounds (visible_step text i).1 near (omega arith) in
      ((visible_step text i).0 + n, (rw (here, visible_from) (rw e), omega arith))
]

-- On every text the loop of `visible_length` ends, and the length is at most that of the text.
visible_length-le : (text : Text) → (n : ℕ) × ((visible_length text ≡ some n) × (n ≤ length text))
unfolding visible_length
visible_length-le text =
    let (n, (e, bound)) = visible_from_total text (length text + 1) 0 (omega arith) (omega arith) in
    (n, (e, omega arith))
