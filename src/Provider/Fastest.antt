-- ===== src/Provider/Fastest.antt =====
-- What `fastest` of src/provider/registry.cpp chooses.
use llama_cli.Base.Cases.{if-cases}
use llama_cli.Provider.Registry.{
  Capability, ModelEntry, offers, faster, by_capability, fastest_from, fastest,
}
use llama_cli.Base.{
  ◌≤◌, ◌<◌, ◌≡◌, refl, ap, ◌⊎◌, inl, inr, Option, none, some, List, [], ◌∷◌, ◌++◌, arith, ltb,
  ltb→lt, not_ltb→le, Bool-cases, All,
}

-- The first of the fastest: what stands before it is slower, what stands behind it is not faster.
abbrev pub IsFirstFastest : List ModelEntry → ModelEntry → Type 0
IsFirstFastest models m =
    (before : List ModelEntry) × ((after : List ModelEntry) × ((models ≡ before ++ m ∷ after)
        × (All (λ x. x.tokens_per_sec < m.tokens_per_sec) before
            × All (λ x. x.tokens_per_sec ≤ m.tokens_per_sec) after)))

-- what an answer promises
abbrev pub IsAnswer : List ModelEntry → Option ModelEntry → Type 0
IsAnswer models none = models ≡ []
IsAnswer models (some m) = IsFirstFastest models m

abbrev pick : ModelEntry → List ModelEntry → ModelEntry
pick best [] = best
pick best (m ∷ models) = pick (faster (some best) m) models

-- the best so far stays, or a faster one follows
abbrev Stays : ModelEntry → List ModelEntry → ModelEntry → Type 0
Stays best models m =
    ((m ≡ best) × All (λ x. x.tokens_per_sec ≤ best.tokens_per_sec) models)
    ⊎ ((best.tokens_per_sec < m.tokens_per_sec) × IsFirstFastest models m)

first_of :
    (best m : ModelEntry) (models : List ModelEntry)
    → Stays best models m
    → IsFirstFastest (best ∷ models) m
first_of best m models (inl (e, all)) = rw e ([], (models, (refl, (tt, all))))
first_of best m models (inr (lt, (before, (after, (e, (slow, rest)))))) =
    (best ∷ before, (after, (ap (◌∷◌ best) e, ((lt, slow), rest))))

behind_best :
    (best next m : ModelEntry) (models : List ModelEntry)
    → next.tokens_per_sec ≤ best.tokens_per_sec
    → Stays best models m
    → Stays best (next ∷ models) m
behind_best best next m models le (inl (e, all)) = inl (e, (le, all))
behind_best best next m models le (inr (lt, (before, (after, (e, (slow, rest)))))) =
    inr (lt, (next ∷ before, (after, (ap (◌∷◌ next) e, ((omega arith, slow), rest)))))

overtakes :
    (best next m : ModelEntry) (models : List ModelEntry)
    → best.tokens_per_sec < next.tokens_per_sec
    → Stays next models m
    → Stays best (next ∷ models) m
overtakes best next m models lt (inl (e, all)) =
    inr (rw e lt, first_of next m models (inl (e, all)))
overtakes best next m models lt (inr (lt', fast)) =
    inr (omega arith, first_of next m models (inr (lt', fast)))

pick-Stays : (best : ModelEntry) (models : List ModelEntry) → Stays best models (pick best models)
pick-Stays best [] = inl (refl, tt)
pick-Stays best (next ∷ models) =
    if-cases (λ b. Stays best (next ∷ models) (pick b models))
      (ltb best.tokens_per_sec next.tokens_per_sec)
      (λ e. overtakes best next (pick next models) models (ltb→lt _ _ e) (pick-Stays next models))
      (λ e.
        behind_best best next (pick best models) models (not_ltb→le _ _ e) (pick-Stays best models))

fastest_from-pick :
    (cap : Capability) (best : ModelEntry) (models : List ModelEntry)
    → fastest_from cap (some best) models ≡ some (pick best (by_capability cap models))
unfolding fastest_from by_capability
fastest_from-pick cap best [] = refl
fastest_from-pick cap best (m ∷ models) = elim (Bool-cases (offers cap m)) [
  | inl e ↦
      rw (e, fastest_from, by_capability) (fastest_from-pick cap (faster (some best) m) models)
  | inr e ↦ rw (e, fastest_from, by_capability) (fastest_from-pick cap best models)
]

-- `fastest` gives the first of the fastest models that are available and have the capability, in the order
-- of `by_capability`, and nothing exactly if there is no such model.
pub fastest-IsAnswer :
    (cap : Capability) (models : List ModelEntry)
    → IsAnswer (by_capability cap models) (fastest cap models)
unfolding fastest fastest_from by_capability
fastest-IsAnswer cap [] = refl
fastest-IsAnswer cap (m ∷ models) = elim (Bool-cases (offers cap m)) [
  | inl e ↦
      rw (e, fastest_from, by_capability, fastest_from-pick cap m models)
        (first_of m _ (by_capability cap models) (pick-Stays m (by_capability cap models)))
  | inr e ↦ rw (e, fastest_from, by_capability) (fastest-IsAnswer cap models)
]
