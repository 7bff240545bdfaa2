-- ===== src/Provider/Routing.antt =====
-- The choice of a host for a model.
use llama_cli.Base.Words.{is_one_of}
use llama_cli.Provider.MultiHost.{
  HostEntry, healthy_at, serving_host, healthy_host, find_host_for_model,
}
use llama_cli.Base.{
  ℕ, zero, suc, ◌+◌, ◌<◌, ◌≡◌, refl, ◌≢◌, ◌⊎◌, inl, inr, Bool, true, false, ◌&&◌, none, some, List,
  [], ◌∷◌, arith, Bool-cases, Option-cases, length, get_elem?, Text,
}

unfoldable pub serves : Text → HostEntry → Bool
serves name h = h.healthy && is_one_of h.models name

-- does host `i` exist, is it healthy and has it the model
pub serves_at : Text → List HostEntry → ℕ → Bool
serves_at name hosts i = elim (get_elem? hosts i) [ none ↦ false | some h ↦ serves name h ]

module _ (name : Text) where
  serving_found :
      (hosts : List HostEntry) (k i : ℕ)
      → serving_host name hosts k ≡ some i
      → (j : ℕ) × ((i ≡ k + j) × ((j < length hosts) × (serves_at name hosts j ≡ true)))
  unfolding serving_host serves_at serves
  serving_found [] k i e = ground (arith, e)
  serving_found (h ∷ hosts) k i e = elim (Bool-cases (h.healthy && is_one_of h.models name)) [
    | inl s ↦ (0, (ground (arith, s, e), (omega arith, s)))
    | inr s ↦
        let (j, (at, (lt, found))) = serving_found hosts (suc k) i (ground (arith, s, e)) in
        (suc j, (omega arith, (omega arith, found)))
  ]

  serving_none :
      (hosts : List HostEntry) (k : ℕ)
      → serving_host name hosts k ≡ none
      → (j : ℕ) → serves_at name hosts j ≡ false
  unfolding serving_host serves_at serves
  serving_none [] k e j = refl
  serving_none (h ∷ hosts) k e zero = ground (arith, e)
  serving_none (h ∷ hosts) k e (suc j) = serving_none hosts (suc k) (ground (arith, e)) j

healthy_found :
    (hosts : List HostEntry) (k i : ℕ)
    → healthy_host hosts k ≡ some i
    → (j : ℕ) × ((i ≡ k + j) × ((j < length hosts) × (healthy_at hosts j ≡ true)))
unfolding healthy_host healthy_at
healthy_found [] k i e = ground (arith, e)
healthy_found (h ∷ hosts) k i e = elim (Bool-cases h.healthy) [
  | inl s ↦ (0, (ground (arith, s, e), (omega arith, s)))
  | inr s ↦
      let (j, (at, (lt, found))) = healthy_found hosts (suc k) i (ground (arith, s, e)) in
      (suc j, (omega arith, (omega arith, found)))
]

healthy_none :
    (hosts : List HostEntry) (k : ℕ)
    → healthy_host hosts k ≡ none
    → (j : ℕ) → healthy_at hosts j ≡ false
unfolding healthy_host healthy_at
healthy_none [] k e j = refl
healthy_none (h ∷ hosts) k e zero = ground (arith, e)
healthy_none (h ∷ hosts) k e (suc j) = healthy_none hosts (suc k) (ground (arith, e)) j

-- what the choice promises: a host that has the model, else one that is healthy, else the first
abbrev pub IsChoice : Text → List HostEntry → ℕ → Type 0
IsChoice name hosts i =
    (serves_at name hosts i ≡ true)
    ⊎ ((((j : ℕ) → serves_at name hosts j ≡ false) × (healthy_at hosts i ≡ true))
        ⊎ (((j : ℕ) → healthy_at hosts j ≡ false) × (i ≡ 0)))

-- `find_host_for_model` returns the index of one of the hosts, if there is any. It is a healthy host
-- with the model if there is one, else a healthy host if there is one, else the first.
pub find_host_for_model-IsChoice :
    (hosts : List HostEntry) (name : Text)
    → hosts ≢ []
    → (find_host_for_model hosts name < length hosts)
      × IsChoice name hosts (find_host_for_model hosts name)
unfolding find_host_for_model
find_host_for_model-IsChoice hosts name some_host =
    elim (Option-cases (serving_host name hosts 0)) [
      | inr (i, e) ↦
          let (j, (at, (lt, found))) = serving_found name hosts 0 i e in
          rw (e, find_host_for_model) (let same : i ≡ j = omega arith in rw same (lt, inl found))
      | inl e ↦ elim (Option-cases (healthy_host hosts 0)) [
        | inr (i, e') ↦
            let (j, (at, (lt, found))) = healthy_found hosts 0 i e' in
            rw (e, find_host_for_model)
              (rw e' (
                let same : i ≡ j = omega arith in
                rw same (lt, inr (inl (serving_none name hosts 0 e, found)))))
        | inl e' ↦
            rw (e, find_host_for_model)
              (rw e' (nonempty hosts some_host, inr (inr (healthy_none hosts 0 e', refl))))
      ]
    ]
  where
    nonempty : (l : List HostEntry) → l ≢ [] → 0 < length l
    nonempty [] h = absurd (h refl)
    nonempty (x ∷ l) h = omega arith
