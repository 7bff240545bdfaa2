-- ===== src/Orchestrator/Template.antt =====
-- src/orchestrator/prompt_template.cpp: `render_template` and `load_prompt`. The loop runs over what is
-- left of the template; the fuel is a round for each byte and one more.
use llama_cli.Base.Search.{find_sound}
use llama_cli.Base.{
  ℕ, zero, suc, ◌+◌, ◌-◌, ◌<◌, ◌≡◌, refl, inl, inr, Option, none, some, List, [], ◌∷◌, ◌++◌, arith,
  if◌then◌else◌, Option-cases, ◌>>=◌, length, take, drop, length-drop, Text, codes, text_eq, substr,
  find, find_from,
}

unfoldable pub value_of : List (Text × Text) → Text → Option Text
value_of [] key = none
value_of ((k, v) ∷ vars) key = if text_eq k key then some v else value_of vars key

-- a key that is not known stays
unfoldable pub filled_in : List (Text × Text) → Text → Text
filled_in vars key = elim (value_of vars key) [
  | some value ↦ value
  | none ↦ codes "{{" ++ (key ++ codes "}}")
]

unfoldable pub render_from : List (Text × Text) → ℕ → Text → Option Text
render_from vars zero rest = none
render_from vars (suc fuel) rest = elim (find (codes "{{") rest) [
  | none ↦ some rest
  | some start ↦ elim (find_from (codes "}}") rest (start + 2)) [
    | none ↦ some rest
    | some end ↦ do
      later ← render_from vars fuel (drop (end + 2) rest)
      some
          (take start rest ++ (filled_in vars (substr rest (start + 2) (end - start - 2)) ++ later))
  ]
]

unfoldable pub render_template : Text → List (Text × Text) → Option Text
render_template tmpl vars = render_from vars (length tmpl + 1) tmpl

-- the first file that is there
unfoldable pub load_prompt : Option Text → Option Text → Text
load_prompt (some bundled) installed = bundled
load_prompt none (some installed) = installed
load_prompt none none = []

-- With a round for each byte the loop ends.
render_from_total :
    (vars : List (Text × Text)) (fuel : ℕ) (rest : Text)
    → length rest < fuel
    → (out : Text) × (render_from vars fuel rest ≡ some out)
unfolding render_from
render_from_total vars zero rest h = absurd (omega arith)
render_from_total vars (suc fuel) rest h = elim (Option-cases (find (codes "{{") rest)) [
  | inl e ↦ (rest, rw (e, render_from) refl)
  | inr (start, e) ↦ elim (Option-cases (find_from (codes "}}") rest (start + 2))) [
    | inl f ↦ (rest, rw (e, f, render_from) refl)
    | inr (end, f) ↦
        let (le, sw) = find_sound (codes "{{") rest start e in
        let (later, r) =
          render_from_total vars fuel (drop (end + 2) rest)
            (omega (arith, length-drop {0} (end + 2) rest)) in
        (
          take start rest ++ (filled_in vars (substr rest (start + 2) (end - start - 2)) ++ later),
          rw (e, f, render_from) (rw r refl),
        )
  ]
]

pub render_template_total :
    (tmpl : Text) (vars : List (Text × Text))
    → (out : Text) × (render_template tmpl vars ≡ some out)
unfolding render_template
render_template_total tmpl vars = render_from_total vars (length tmpl + 1) tmpl (omega arith)
