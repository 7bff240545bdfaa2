-- ===== src/Repl/Picked.antt =====
-- What `/use` of src/repl/repl_commands.cpp switches to.
use llama_cli.Base.Search.{take_front}
use llama_cli.Provider.Registry.{ModelEntry}
use llama_cli.Config.Settings.{Config}
use llama_cli.Repl.Console.{Desk}
use llama_cli.Repl.Panel.{Outside, Panel}
use llama_cli.Repl.Switch.{fits, on_host, call_switch, first_model, take_model, handle_use}
use llama_cli.Base.{
  ◌+◌, ◌≡◌, refl, ap, inl, inr, Bool, true, Option, none, some, List, [], ◌∷◌, ◌++◌, arith,
  Bool-cases, Option-cases, length, drop, All, Text, codes, is_empty, find, Lacks, ◌⊎◌, ◌↔◌, take,
  starts_with, text_eq, text_eq_iff, ◌==◌, beq→eq,
}
use llama_cli.Repl.Fits.{
  Suits, wanted, wanted_text, parse_wanted-text, fits-Suits, colon_at, behind_colon,
}

module _ (P : ModelEntry → Type 0) where
  -- the first with this property, or that none has it
  abbrev pub IsFirst : List ModelEntry → Option ModelEntry → Type 0
  IsFirst models none = All (λ x. ¬ (P x)) models
  IsFirst models (some m) =
      (before : List ModelEntry) × ((after : List ModelEntry) × ((models ≡ before ++ m ∷ after)
          × (All (λ x. ¬ (P x)) before × P m)))

  IsFirst-behind :
      (x : ModelEntry) (models : List ModelEntry) (o : Option ModelEntry)
      → ¬ (P x)
      → IsFirst models o
      → IsFirst (x ∷ models) o
  IsFirst-behind x models none e h = (e, h)
  IsFirst-behind x models (some m) e (before, (after, (same, (all, fit)))) =
      (x ∷ before, (after, (ap (◌∷◌ x) same, ((e, all), fit))))

  first_model-IsFirst :
      (test : ModelEntry → Bool) (models : List ModelEntry)
      → ((x : ModelEntry) → (test x ≡ true) ↔ P x)
      → IsFirst models (first_model test models)
  unfolding first_model
  first_model-IsFirst test [] iff = tt
  first_model-IsFirst test (x ∷ models) iff = elim (Bool-cases (test x)) [
    | inl e ↦ rw (e, first_model) ([], (models, (refl, (tt, (iff x).0 e))))
    | inr e ↦
        let not_this : ¬ (P x) = λ h. let e' = (iff x).1 h in absurd (cc) in
        rw (e, first_model)
          (IsFirst-behind x models _ not_this (first_model-IsFirst test models iff))
  ]

  IsFirst-empty : (models : List ModelEntry) → is_empty models ≡ true → IsFirst models none
  IsFirst-empty [] e = tt
  IsFirst-empty (m ∷ models) e = absurd (cc)

-- An address with a port behind its first colon becomes host and port; without one they stay.
abbrev pub Addressed : Text → Config → Config → Type 0
Addressed address old c =
    (Lacks b':' address × ((c.host ≡ old.host) × (c.port ≡ old.port)))
    ⊎ ((h : Text) × ((port : Text) × (Lacks b':' h
            × ((address ≡ h ++ (codes ":" ++ port)) × ((c.host ≡ h) × (c.port ≡ port))))))

-- The model is the current one; nothing but host, port, provider and model has changed.
abbrev pub IsCurrent : ModelEntry → Config → Config → Type 0
IsCurrent m old c =
    Addressed m.host old c
    × ((c.model ≡ m.name)
        × ((c.provider ≡ m.provider)
            × (c ≡ record old {
              host = c.host;
              port = c.port;
              provider = c.provider;
              model = c.model;
            })))

colon_cases :
    (s : Text)
    → ((find (codes ":") s ≡ none) × Lacks b':' s)
      ⊎ ((h : Text) × ((port : Text) × (Lacks b':' h × (s ≡ h ++ (codes ":" ++ port)))))
unfolding find starts_with
colon_cases [] = inl (refl, tt)
colon_cases (c ∷ s) = elim (Bool-cases (c == b':')) [
  | inl here ↦ inr ([], (s, (tt, ap (λ x. x ∷ s) (beq→eq c _ here))))
  | inr other ↦ elim (colon_cases s) [
    | inl (e, lacks) ↦
        inl (ground (arith, e, other), ((λ same. absurd (ground (arith, same, other))), lacks))
    | inr (h, (port, (lacks, same))) ↦ inr (
      c ∷ h,
      (port, (((λ same'. absurd (ground (arith, same', other))), lacks), ap (◌∷◌ c) same)),
    )
  ]
]

Addressed-on_host : (m : ModelEntry) (old : Config) → Addressed m.host old (on_host m old)
unfolding on_host
Addressed-on_host m old = elim (Bool-cases (text_eq m.host (codes "cloud"))) [
  | inl e ↦
      let cloud = (text_eq_iff m.host (codes "cloud")).0 e in
      let lacks : Lacks b':' (codes "cloud") =
        (omega arith, (omega arith, (omega arith, (omega arith, (omega arith, tt))))) in
      rw (e, on_host) (inl (rw cloud lacks, (refl, refl)))
  | inr e ↦ elim (colon_cases m.host) [
    | inl (f, lacks) ↦ rw (e, on_host) (rw f (inl (lacks, (refl, refl))))
    | inr (h, (port, (lacks, same))) ↦
        let at : find (codes ":") m.host ≡ some (length h) = rw same (colon_at h port lacks) in
        let front : take (length h) m.host ≡ h =
          rw same (take_front _ h (codes ":" ++ port) refl) in
        let back : drop (length h + 1) m.host ≡ port = rw same (behind_colon h port) in
        rw (e, on_host) (rw at (inr (h, (port, (lacks, (same, (front, back)))))))
  ]
]

only_address :
    (m : ModelEntry) (old : Config)
    → on_host m old ≡ record old { host = (on_host m old).host; port = (on_host m old).port }
unfolding on_host
only_address m old = elim (Bool-cases (text_eq m.host (codes "cloud"))) [
  | inl e ↦ rw (e, on_host) refl
  | inr e ↦ elim (Option-cases (find (codes ":") m.host)) [
    | inl f ↦ rw (e, on_host) (rw f refl)
    | inr (i, f) ↦ rw (e, on_host) (rw f refl)
  ]
]

abbrev named : ModelEntry → Config → Config
named m old = record (on_host m old) { provider = m.provider; model = m.name }

named-IsCurrent : (m : ModelEntry) (old : Config) → IsCurrent m old (named m old)
named-IsCurrent m old = (
  Addressed-on_host m old,
  (
    refl,
    (
      refl,
      ap {A = Config} (λ c. record c { provider = m.provider; model = m.name })
          (only_address m old),
    ),
  ),
)

module _ (desk : Desk) (outside : Outside desk) where
  -- Nothing changes if there is no model; else the model is the current one, and the callback is
  -- called with its provider, if there is a callback.
  abbrev pub Becomes : Option ModelEntry → Config → Config → Type 0
  Becomes none old new = new ≡ old
  Becomes (some m) old new =
      (c : Config) × (IsCurrent m old c
        × (new ≡ (elim outside.switch_to [ none ↦ c | some switch ↦ switch c m.provider ])))

  Becomes-take_model :
      (m : ModelEntry) (old : Config) → Becomes (some m) old (take_model desk outside m old)
  unfolding take_model call_switch
  Becomes-take_model m old = (named m old, (named-IsCurrent m old, refl))

  abbrev pub Takes : (ModelEntry → Type 0) → List ModelEntry → Config → Config → Type 0
  Takes P models old new = (o : Option ModelEntry) × (IsFirst P models o × Becomes o old new)

  -- `/use @host:provider:model`, where host and provider have no colon, makes the first model of the
  -- registry the current one that is available, is of that provider, stands at an address that
  -- contains the host and has a name that begins with the model, an empty part asking for nothing; the
  -- callback for the provider is called with it, if there is one. Without such a model the
  -- configuration stays.
  pub handle_use-Takes :
      (host provider model : Text) (p : Panel desk)
      → Lacks b':' host
      → Lacks b':' provider
      → Takes
          (Suits host provider model)
          p.extras.registry
          p.extras.config
          (handle_use desk outside (wanted_text host provider model) p).extras.config
  unfolding handle_use
  handle_use-Takes host provider model p hh hp =
      let S = Suits host provider model in
      let test = fits (wanted host provider model) in
      let same = parse_wanted-text host provider model hh hp in
      let first = first_model-IsFirst S test p.extras.registry (fits-Suits host provider model) in
      elim (Bool-cases (is_empty p.extras.registry)) [
        | inl e ↦ (none, (IsFirst-empty S p.extras.registry e, rw (e, handle_use) refl))
        | inr e ↦ elim (Option-cases (first_model test p.extras.registry)) [
          | inl f ↦
              let k : IsFirst S p.extras.registry none = rw f at first in
              (none, (k, rw (e, handle_use) (rw (same, f) refl)))
          | inr (m, f) ↦
              let k : IsFirst S p.extras.registry (some m) = rw f at first in
              (
                some m,
                (k, rw (e, handle_use) (rw (same, f) (Becomes-take_model m p.extras.config))),
              )
        ]
      ]
