-- ===== src/Provider/Failover.antt =====
-- The search of `failover`: it visits every other host once.
use mathlib.Core.Option.{some-injective}
use native.Mathlib.Nat.{mod-eq_of_lt, mod-eq-sub-mod}
use llama_cli.Provider.MultiHost.{HostEntry, MultiHost, healthy_at, next_healthy, failover}
use llama_cli.Base.{
  ℕ, zero, suc, ◌+◌, ◌-◌, ◌%◌, ◌≤◌, ◌<◌, ◌≡◌, refl, sym, ap, ◌∙◌, ◌≢◌, ◌⊎◌, inl, inr, Bool, true,
  false, none, some, List, [], ◌∷◌, arith, ltb, ◌==◌, ltb→lt, not_ltb→le, beq→eq, Bool-cases,
  Option-cases, length, get_elem?, set, length-set, get_elem?-set_self,
}

-- What the search may return: a healthy host, another one than the active one, in range.
abbrev pub IsOther : List HostEntry → ℕ → ℕ → Type 0
IsOther hosts active j = (j < length hosts) × ((j ≢ active) × (healthy_at hosts j ≡ true))

module _ (hosts : List HostEntry) (active : ℕ) (in_range : active < length hosts) where
  wrapped : (i : ℕ) → 1 ≤ i → i < length hosts → (active + i) % length hosts ≢ active
  wrapped i le lt e = elim (Bool-cases (ltb (active + i) (length hosts))) [
    | inl h ↦ absurd (omega (arith, mod-eq_of_lt (ltb→lt _ _ h), e, le))
    | inr h ↦
        let ge : length hosts ≤ active + i = not_ltb→le _ _ h in
        let small : active + i - length hosts < length hosts = omega arith in
        absurd (omega (arith, mod-eq-sub-mod ge, mod-eq_of_lt small, e))
  ]

  -- the round that visits host `j`
  pub visit :
      (j : ℕ)
      → j < length hosts
      → j ≢ active
      → (i : ℕ) × ((1 ≤ i) × ((i < length hosts) × ((active + i) % length hosts ≡ j)))
  visit j lt ne = elim (Bool-cases (ltb active j)) [
    | inl h ↦
        let far : active < j = ltb→lt _ _ h in
        (j - active, (omega arith, (omega arith, reach (j - active) (omega arith))))
    | inr h ↦
        let near : j < active = below (not_ltb→le _ _ h) ne in
        (
          length hosts - active + j,
          (omega arith, (omega arith, reach_over (length hosts - active + j) (omega arith))),
        )
  ]
    where
      below : j ≤ active → j ≢ active → j < active
      below le other = ground arith

      reach : (i : ℕ) → active + i ≡ j → (active + i) % length hosts ≡ j
      reach i e = ap (λ k. k % length hosts) e ∙ mod-eq_of_lt lt

      reach_over : (i : ℕ) → active + i ≡ length hosts + j → (active + i) % length hosts ≡ j
      reach_over i e =
          let back : active + i - length hosts ≡ j = omega arith in
          mod-eq-sub-mod (let ge : length hosts ≤ active + i = omega arith in ge)
          ∙ ap (λ k. k % length hosts) back
          ∙ mod-eq_of_lt lt

  found-IsOther :
      (rounds i idx : ℕ)
      → 1 ≤ i
      → i + rounds ≤ length hosts
      → next_healthy hosts active i rounds ≡ some idx
      → IsOther hosts active idx
  unfolding next_healthy
  found-IsOther zero i idx le h e = ground (arith, e)
  found-IsOther (suc rounds) i idx le h e =
      elim (Bool-cases (healthy_at hosts ((active + i) % length hosts))) [
        | inl up ↦
            let same : (active + i) % length hosts ≡ idx = some-injective _ _ (
              let here : some ((active + i) % length hosts) ≡ some idx = ground (arith, up, e) in
              here) in
            rw (sym same) (omega arith, (wrapped i le (omega arith), up))
        | inr down ↦
            found-IsOther rounds (suc i) idx (omega arith) (omega arith) (ground (arith, down, e))
      ]

  none_visited :
      (rounds i j : ℕ)
      → next_healthy hosts active i rounds ≡ none
      → i ≤ j
      → j < i + rounds
      → healthy_at hosts ((active + j) % length hosts) ≡ false
  unfolding next_healthy
  none_visited zero i j e le lt = absurd (omega arith)
  none_visited (suc rounds) i j e le lt =
      elim (Bool-cases (healthy_at hosts ((active + i) % length hosts))) [
        | inl up ↦ ground (arith, up, e)
        | inr down ↦ elim (Bool-cases (i == j)) [
          | inl same ↦
              ap (λ k. healthy_at hosts ((active + k) % length hosts)) (sym (beq→eq i j same))
              ∙ down
          | inr other ↦
              none_visited rounds (suc i) j (ground (arith, down, e)) (ground (arith, other))
                (omega arith)
        ]
      ]

-- the hosts with the active one marked as down
abbrev pub marked_down : MultiHost → HostEntry → List HostEntry
marked_down m h = set m.hosts m.active_idx (record h { healthy = false })

abbrev pub IsValid : MultiHost → Type 0
IsValid m = m.active_idx < length m.hosts

-- A valid router has an active host.
pub active_host :
    (hosts : List HostEntry) (i : ℕ)
    → i < length hosts
    → (h : HostEntry) × (get_elem? hosts i ≡ some h)
active_host [] i lt = absurd (omega arith)
active_host (h ∷ hosts) zero lt = (h, refl)
active_host (h ∷ hosts) (suc i) lt = active_host hosts i (omega arith)

-- The active host is down after `failover`, and a search from it sees all others.
abbrev pub Switched : MultiHost → MultiHost → Type 0
Switched m after =
    (after.active_idx < length after.hosts)
    × ((after.active_idx ≢ m.active_idx) × (healthy_at after.hosts after.active_idx ≡ true))

abbrev pub Stranded : MultiHost → MultiHost → Type 0
Stranded m after = (after.active_idx ≡ m.active_idx) × ((j : ℕ) → healthy_at after.hosts j ≡ false)

behind_end : (hosts : List HostEntry) (j : ℕ) → length hosts ≤ j → healthy_at hosts j ≡ false
unfolding healthy_at
behind_end [] j le = refl
behind_end (h ∷ hosts) zero le = absurd (omega arith)
behind_end (h ∷ hosts) (suc j) le = behind_end hosts j (omega arith)

down_self :
    (m : MultiHost) (h : HostEntry) → IsValid m → healthy_at (marked_down m h) m.active_idx ≡ false
unfolding healthy_at
down_self m h valid =
    rw (healthy_at, get_elem?-set_self m.hosts m.active_idx (record h { healthy = false }) valid)

-- A search that finds nothing has seen every other host.
stranded :
    (m : MultiHost) (h : HostEntry)
    → IsValid m
    → next_healthy (marked_down m h) m.active_idx 1 (length (marked_down m h) - 1) ≡ none
    → (j : ℕ) → healthy_at (marked_down m h) j ≡ false
stranded m h valid e j = elim (Bool-cases (ltb j (length (marked_down m h)))) [
  | inr far ↦ behind_end (marked_down m h) j (not_ltb→le _ _ far)
  | inl near ↦ elim (Bool-cases (j == m.active_idx)) [
    | inl same ↦
        ap (healthy_at (marked_down m h)) (beq→eq j m.active_idx same) ∙ down_self m h valid
    | inr other ↦
        let range : m.active_idx < length (marked_down m h) =
          omega (arith, length-set m.hosts m.active_idx (record h { healthy = false })) in
        let (i, (ge, (lt, reached))) =
          visit (marked_down m h) m.active_idx range j (ltb→lt _ _ near) (ground (arith, other)) in
        ap (healthy_at (marked_down m h)) (sym reached)
        ∙ none_visited (marked_down m h) m.active_idx range _ 1 i e ge (omega arith)
  ]
]

-- For a valid router `failover` never reads outside of the hosts: it marks the active host as down,
-- and either it switches to another host, one that is healthy, or it reports that there is none, and
-- then no host at all is healthy.
pub failover_lem :
    (m : MultiHost)
    → IsValid m
    → (h : HostEntry) × ((r : Bool × MultiHost) × ((failover m ≡ some r)
          × ((r.1.hosts ≡ marked_down m h)
              × ((r.1.target ≡ m.target)
                  × (((r.0 ≡ true) × Switched m r.1) ⊎ ((r.0 ≡ false) × Stranded m r.1))))))
unfolding failover
failover_lem m valid =
    let (h, at) = active_host m.hosts m.active_idx valid in
    let size = length-set m.hosts m.active_idx (record h { healthy = false }) in
    let range : m.active_idx < length (marked_down m h) = omega arith in
    (
      h,
      elim (Option-cases
          (next_healthy (marked_down m h) m.active_idx 1 (length (marked_down m h) - 1))) [
            | inl e ↦ (
              (false, record m { hosts = marked_down m h }),
              (rw (at, failover) (rw e), (refl, (refl, inr (refl, (refl, stranded m h valid e))))),
            )
            | inr (idx, e) ↦ (
              (true, record m { hosts = marked_down m h; active_idx = idx }),
              (
                rw (at, failover) (rw e),
                (
                  refl,
                  (
                    refl,
                    inl (
                      refl,
                      found-IsOther (marked_down m h) m.active_idx range _ 1 idx (omega arith)
                          (omega arith) e,
                    ),
                  ),
                ),
              ),
            )
          ],
    )
