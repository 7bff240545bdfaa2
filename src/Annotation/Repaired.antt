-- ===== src/Annotation/Repaired.antt =====
-- `fix_malformed_tags` of src/annotation/annotation.cpp ends on every text.
use llama_cli.Base.Search.{find_from_bounds}
use llama_cli.Base.Cases.{if-cases}
use llama_cli.Annotation.Strip.{splice}
use llama_cli.Annotation.Repair.{
  Tag, repaired_tags, is_inner, next_closer, bad_closer, closed_at, repair_step, repair_tag,
  repair_tags, fix_malformed_tags,
}
use llama_cli.Base.{
  ℕ, zero, suc, ◌+◌, ◌-◌, ◌≤◌, ◌<◌, ◌≡◌, refl, ◌∙◌, inl, inr, false, Option, none, some, List, [],
  ◌∷◌, ◌++◌, arith, Option-cases, >>=-eq-some, length, take, drop, length-append, length-drop,
  length-take, All, Text, codes, is_empty, substr, find_from,
}

-- A closing tag lies within the text.
next_closer_bounds :
    (text : Text) (from bad gt : ℕ)
    → next_closer text from ≡ some (bad, gt)
    → (from ≤ bad) × (bad ≤ gt) × (gt < length text)
unfolding next_closer
next_closer_bounds text from bad gt h =
    let (b, e₁, h₁) = >>=-eq-some (find_from (codes "</") text from) _ h in
    let (g, e₂, h₂) = >>=-eq-some (find_from (codes ">") text b) _ h₁ in
    ground (
      arith,
      find_from_bounds (codes "</") text from b e₁,
      find_from_bounds (codes ">") text b g e₂,
    )

-- The loop has ended; what it found lies within the text.
abbrev Closes : Text → ℕ → Option (Option (ℕ × ℕ)) → Type 0
Closes text from none = ⊥
Closes text from (some none) = Unit
Closes text from (some (some (bad, gt))) = (from ≤ bad) × (bad ≤ gt) × (gt < length text)

later-Closes :
    (text : Text) (from next : ℕ) (r : Option (Option (ℕ × ℕ)))
    → from ≤ next
    → Closes text next r
    → Closes text from r
later-Closes text from next none le h = h
later-Closes text from next (some none) le h = h
later-Closes text from next (some (some (bad, gt))) le h = ground arith

bad_closer-Closes :
    (fuel : ℕ) (text : Text) (from : ℕ)
    → length text < from + fuel
    → from ≤ length text
    → Closes text from (bad_closer fuel text from)
unfolding bad_closer
bad_closer-Closes zero text from h le = absurd (omega arith)
bad_closer-Closes (suc fuel) text from h le = elim (Option-cases (next_closer text from)) [
  | inl e ↦ rw (e, bad_closer) tt
  | inr ((bad, gt), e) ↦
      let (x, y, z) = next_closer_bounds text from bad gt e in
      rw (e, bad_closer)
        (if-cases (Closes text from)
          (is_inner repaired_tags text (substr text (bad + 2) (gt - bad - 2)) from bad)
          {y = some (some (bad, gt))}
          (λ _.
            later-Closes text from (gt + 1) _ (omega arith)
              (bad_closer-Closes fuel text (gt + 1) (omega arith) (omega arith)))
          (λ _. (x, y, z)))
]

closed_at_bounds :
    (t : Tag) (text : Text) (start correct : ℕ)
    → closed_at t text start ≡ some correct
    → (start ≤ correct) × (correct + length t.close ≤ length text)
unfolding closed_at
closed_at_bounds t text start correct h = elim (Option-cases (find_from t.close text start)) [
  | inl e ↦ let h₁ = rw (e, closed_at) at h in cc
  | inr (found, e) ↦
      let (x, y) = find_from_bounds t.close text start found e in
      let h₁ = rw (e, closed_at) at h in ground arith
]

length-splice :
    (text new : Text) (at n : ℕ)
    → at + n ≤ length text
    → length (splice text at n new) ≡ at + length new + (length text - (at + n))
length-splice text new at n h =
    length-append {0} (take at text) (new ++ drop (at + n) text)
    ∙ omega (
      arith,
      length-append {0} new (drop (at + n) text),
      length-take {0} at text,
      length-drop {0} (at + n) text,
    )

is_empty-length : (s : Text) → is_empty s ≡ false → 0 < length s
is_empty-length [] h = cc
is_empty-length (c ∷ s) h = omega arith

-- A round brings the end of the text nearer.
abbrev Nearer : Text → ℕ → Option (Option (ℕ × Text)) → Type 0
Nearer text pos none = ⊥
Nearer text pos (some none) = Unit
Nearer text pos (some (some (next, repaired))) =
    (next ≤ length repaired) × (length repaired - next < length text - pos)

replaced-Nearer :
    (t : Tag) (text : Text) (pos from : ℕ)
    → pos < from
    → (r : Option (Option (ℕ × ℕ))) → Closes text from r
    → Nearer text pos (elim r [
      | none ↦ none
      | some none ↦ some none
      | some (some (bad, gt)) ↦
          some (some (bad + length t.close, splice text bad (gt - bad + 1) t.close))
    ])
replaced-Nearer t text pos from h none c = c
replaced-Nearer t text pos from h (some none) c = c
replaced-Nearer t text pos from h (some (some (bad, gt))) (x, y, z) =
    let e = length-splice text t.close bad (gt - bad + 1) (omega arith) in
    (omega arith, omega arith)

repair_step-Nearer :
    (t : Tag) (text : Text) (pos : ℕ)
    → 0 < length t.open_tag
    → Nearer text pos (repair_step t text pos)
unfolding repair_step
repair_step-Nearer t text pos h = elim (Option-cases (find_from t.open_tag text pos)) [
  | inl e ↦ rw (e, repair_step) tt
  | inr (start, e) ↦
      let (x, y) = find_from_bounds t.open_tag text pos start e in
      rw (e, repair_step)
        (if-cases (Nearer text pos) (is_empty t.close) (λ _. (y, omega arith))
          (λ ne. elim (Option-cases (closed_at t text start)) [
            | inr (correct, c) ↦
                let (u, v) = closed_at_bounds t text start correct c in
                rw c (v, omega (arith, is_empty-length t.close ne))
            | inl c ↦ rw c (
                replaced-Nearer t text pos (start + length t.open_tag) (omega arith) _ (
                  bad_closer-Closes (length text + 1) text (start + length t.open_tag) (omega arith)
                    y))
          ]))
]

repair_tag_total :
    (t : Tag) (fuel : ℕ) (text : Text) (pos : ℕ)
    → 0 < length t.open_tag
    → length text - pos < fuel
    → (repaired : Text) × (repair_tag t fuel text pos ≡ some repaired)
unfolding repair_tag
repair_tag_total t zero text pos h lt = absurd (omega arith)
repair_tag_total t (suc fuel) text pos h lt =
    stepped (repair_step t text pos) (repair_step-Nearer t text pos h)
      (λ repaired next. repair_tag_total t fuel repaired next h)
  where
    stepped :
        (r : Option (Option (ℕ × Text)))
        → Nearer text pos r
        → ((repaired : Text) (next : ℕ)
            → length repaired - next < fuel
            → (out : Text) × (repair_tag t fuel repaired next ≡ some out))
        → (out : Text) × (elim r [
          | none ↦ none
          | some none ↦ some text
          | some (some (next, repaired)) ↦ repair_tag t fuel repaired next
        ]
            ≡ some out)
    stepped none n go = absurd n
    stepped (some none) n go = (text, refl)
    stepped (some (some (next, repaired))) (x, y) go = go repaired next (omega arith)

repair_tags_total :
    (tags : List Tag)
    → All (λ t. 0 < length t.open_tag) tags
    → (text : Text) → (repaired : Text) × (repair_tags tags text ≡ some repaired)
unfolding repair_tags
repair_tags_total [] h text = (text, refl)
repair_tags_total (t ∷ tags) (ht, h) text =
    let (repaired, e) = repair_tag_total t (length text + 1) text 0 ht (omega arith) in
    let (out, e') = repair_tags_total tags h repaired in (out, rw e e')

-- The repair ends on every text, also where a tag stays open or a closing tag is repaired to a longer one.
pub fix_malformed_tags_total :
    (text : Text) → (repaired : Text) × (fix_malformed_tags text ≡ some repaired)
unfolding fix_malformed_tags repaired_tags
fix_malformed_tags_total text =
    repair_tags_total repaired_tags
      (omega arith, (omega arith, (omega arith, (omega arith, (omega arith, (omega arith, tt))))))
      text
