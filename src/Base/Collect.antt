-- ===== src/Base/Collect.antt =====
-- The loop that all scanners of a text share: a step at a position ends the loop, or gives the
-- position behind what it read and the results found there. The fuel counts the rounds.
use Prim.Native.Nat.{ℕ, zero, suc, ◌+◌, ◌≤◌, ◌<◌}
use mathlib.Core.Path.{◌≡◌, sym, ap, ◌∙◌}
use mathlib.Core.Option
use mathlib.Core.Option.{Option, none, some, some-injective}
use mathlib.Core.Logic.{inl, inr}
use mathlib.Core.List.{List, [], ◌++◌}
use native.Mathlib.Omega.{arith}
use llama_cli.Base.Tests.{Option-cases}

module _ {ℓ} {A : Type ℓ} where
  unfoldable pub collect : (ℕ → Option (ℕ × List A)) → ℕ → ℕ → Option (List A)
  collect step zero pos = none
  collect step (suc fuel) pos = elim (step pos) [
    | none ↦ some []
    | some (next, found) ↦ Option.map (λ later. found ++ later) (collect step fuel next)
  ]

  -- A step moves forward and stays within the text.
  abbrev pub Advances : (ℕ → Option (ℕ × List A)) → ℕ → Type ℓ
  Advances step size =
      (pos next : ℕ) (found : List A) → step pos ≡ some (next, found) → (pos < next) × (next ≤ size)

  -- With a round for each byte left the loop ends.
  pub collect_total :
      (step : ℕ → Option (ℕ × List A)) (size : ℕ)
      → Advances step size
      → (fuel pos : ℕ) → size < pos + fuel
      → pos ≤ size
      → (found : List A) × (collect step fuel pos ≡ some found)
  unfolding collect
  collect_total step size adv zero pos h le = absurd (omega arith)
  collect_total step size adv (suc fuel) pos h le = elim (Option-cases (step pos)) [
    | inl e ↦ ([], rw (e, collect))
    | inr ((next, found), e) ↦
        let (far, near) = adv pos next found e in
        let (later, e') = collect_total step size adv fuel next (omega arith) near in
        (found ++ later, rw (e, collect) (rw e'))
  ]

  pub collect_stop :
      (step : ℕ → Option (ℕ × List A)) (fuel pos : ℕ)
      → step pos ≡ none
      → collect step (suc fuel) pos ≡ some []
  unfolding collect
  collect_stop step fuel pos e = rw (e, collect)

  pub collect_next :
      (step : ℕ → Option (ℕ × List A)) (fuel pos next : ℕ) (first : List A)
      → step pos ≡ some (next, first)
      → collect step (suc fuel) pos ≡ Option.map (λ later. first ++ later) (collect step fuel next)
  unfolding collect
  collect_next step fuel pos next first e = rw (e, collect)

  -- the loop in a longer text, behind a front of `k` bytes
  abbrev pub Shifted : ℕ → (ℕ → Option (ℕ × List A)) → (ℕ → Option (ℕ × List A)) → Type ℓ
  Shifted k far near = (pos : ℕ) → far (k + pos) ≡ Option.map (λ r. (k + r.0, r.1)) (near pos)

  pub collect-Shifted :
      (k : ℕ) (far near : ℕ → Option (ℕ × List A))
      → Shifted k far near
      → (fuel pos : ℕ) (found : List A) → collect near fuel pos ≡ some found
      → collect far fuel (k + pos) ≡ some found
  unfolding collect
  collect-Shifted k far near sh zero pos found h = cc
  collect-Shifted k far near sh (suc fuel) pos found h = elim (Option-cases (near pos)) [
    | inl e ↦
        collect_stop far fuel (k + pos) (rw (sh pos, e)) ∙ sym (collect_stop near fuel pos e) ∙ h
    | inr ((next, first), e) ↦
        let far_next = collect_next far fuel (k + pos) (k + next) first (rw (sh pos, e)) in
        let near_next = collect_next near fuel pos next first e in
        elim (Option-cases (collect near fuel next)) [
          | inl e' ↦ absurd (ground (arith, near_next, e', h))
          | inr (later, e') ↦
              far_next
              ∙ ap (Option.map (λ later. first ++ later))
                  (collect-Shifted k far near sh fuel next later e')
              ∙ ap (Option.map (λ later. first ++ later)) (sym e')
              ∙ sym near_next
              ∙ h
        ]
  ]

  -- more fuel gives the same results
  pub collect_more :
      (step : ℕ → Option (ℕ × List A)) (extra fuel pos : ℕ) (found : List A)
      → collect step fuel pos ≡ some found
      → collect step (fuel + extra) pos ≡ some found
  unfolding collect
  collect_more step extra zero pos found h = cc
  collect_more step extra (suc fuel) pos found h =
      ap (λ n. collect step n pos)
        (let e : suc fuel + extra ≡ suc (fuel + extra) = omega arith in e)
      ∙ elim (Option-cases (step pos)) [
        | inl e ↦ collect_stop step (fuel + extra) pos e ∙ sym (collect_stop step fuel pos e) ∙ h
        | inr ((next, first), e) ↦
            let more_next = collect_next step (fuel + extra) pos next first e in
            let less_next = collect_next step fuel pos next first e in
            elim (Option-cases (collect step fuel next)) [
              | inl e' ↦ absurd (ground (arith, less_next, e', h))
              | inr (later, e') ↦
                  more_next
                  ∙ ap (Option.map (λ later. first ++ later))
                      (collect_more step extra fuel next later e')
                  ∙ ap (Option.map (λ later. first ++ later)) (sym e')
                  ∙ sym less_next
                  ∙ h
            ]
      ]

  -- A step, and then the loop over what is left, with any fuel from enough on.
  pub collect_cons :
      (step : ℕ → Option (ℕ × List A)) (size fuel pos next : ℕ) (first later : List A)
      → Advances step size
      → size < pos + fuel
      → pos ≤ size
      → step pos ≡ some (next, first)
      → (few : ℕ) → collect step few next ≡ some later
      → collect step fuel pos ≡ some (first ++ later)
  collect_cons step size zero pos next first later adv h le e few r = absurd (omega arith)
  collect_cons step size (suc fuel) pos next first later adv h le e few r =
      let (far, near) = adv pos next first e in
      let (found, t) = collect_total step size adv fuel next (omega arith) near in
      let same : found ≡ later = some-injective found later (
        sym (collect_more step few fuel next found t)
        ∙ ap (λ n. collect step n next) (let c : fuel + few ≡ few + fuel = omega arith in c)
        ∙ collect_more step fuel few next later r) in
      collect_next step fuel pos next first e
      ∙ ap (Option.map (λ later. first ++ later)) (t ∙ ap some same)
