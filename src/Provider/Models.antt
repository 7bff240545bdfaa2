-- ===== src/Provider/Models.antt =====
-- The models of all healthy hosts: all of them, and none twice.
use llama_cli.Base.Words.{is_one_of}
use llama_cli.Provider.Routing.{serves}
use llama_cli.Provider.MultiHost.{HostEntry, MultiHost, add_new, list_models_from, list_models}
use llama_cli.Base.{
  ◌≡◌, refl, ap, ◌∙◌, inl, inr, Bool, true, false, ◌||◌, List, [], ◌∷◌, ◌++◌, arith, Bool-cases,
  Text, text_eq, text_eq_iff,
}

-- is the model offered by one of the hosts that are healthy
unfoldable pub offered : List HostEntry → Text → Bool
unfolding serves
offered [] name = false
offered (h ∷ hosts) name = serves name h || offered hosts name

-- no text stands twice
abbrev pub Distinct : List Text → Type 0
Distinct [] = Unit
Distinct (t ∷ ts) = (is_one_of ts t ≡ false) × Distinct ts

is_one_of-append :
    (xs ys : List Text) (t : Text) → is_one_of (xs ++ ys) t ≡ (is_one_of xs t || is_one_of ys t)
unfolding is_one_of
is_one_of-append [] ys t = refl
is_one_of-append (x ∷ xs) ys t = ground (arith, is_one_of-append xs ys t)

text_eq_comm : (s t : Text) → text_eq s t ≡ text_eq t s
unfolding text_eq
text_eq_comm [] [] = refl
text_eq_comm [] (y ∷ t) = refl
text_eq_comm (x ∷ s) [] = refl
text_eq_comm (x ∷ s) (y ∷ t) = ground (arith, text_eq_comm s t)

Distinct-append :
    (xs : List Text) (t : Text) → Distinct xs → is_one_of xs t ≡ false → Distinct (xs ++ t ∷ [])
unfolding is_one_of
Distinct-append [] t d h = (refl, tt)
Distinct-append (x ∷ xs) t (new, d) h = (
  ground (arith, is_one_of-append xs (t ∷ []) x, text_eq_comm x t),
  Distinct-append xs t d (ground (arith, h)),
)

same_known :
    (xs : List Text) (m t : Text)
    → is_one_of xs m ≡ true
    → text_eq t m ≡ true
    → is_one_of xs t ≡ true
same_known xs m t h e = ap (is_one_of xs) ((text_eq_iff t m).0 e) ∙ h

is_one_of-add_new :
    (models all : List Text) (t : Text)
    → is_one_of (add_new models all) t ≡ (is_one_of all t || is_one_of models t)
unfolding add_new is_one_of
is_one_of-add_new [] all t = ground arith
is_one_of-add_new (m ∷ models) all t = elim (Bool-cases (is_one_of all m)) [
  | inl h ↦ ground (arith, h, is_one_of-add_new models all t, same_known all m t)
  | inr h ↦
      ground (arith, h, is_one_of-add_new models (all ++ m ∷ []) t, is_one_of-append all (m ∷ []) t)
]

Distinct-add_new : (models all : List Text) → Distinct all → Distinct (add_new models all)
unfolding add_new
Distinct-add_new [] all d = d
Distinct-add_new (m ∷ models) all d = elim (Bool-cases (is_one_of all m)) [
  | inl h ↦ rw (h, add_new) (Distinct-add_new models all d)
  | inr h ↦ rw (h, add_new) (Distinct-add_new models (all ++ m ∷ []) (Distinct-append all m d h))
]

is_one_of-list_models_from :
    (hosts : List HostEntry) (all : List Text) (t : Text)
    → is_one_of (list_models_from hosts all) t ≡ (is_one_of all t || offered hosts t)
unfolding list_models_from offered serves
is_one_of-list_models_from [] all t = ground arith
is_one_of-list_models_from (h ∷ hosts) all t = elim (Bool-cases h.healthy) [
  | inl up ↦ ground (
    arith,
    up,
    is_one_of-list_models_from hosts (add_new h.models all) t,
    is_one_of-add_new h.models all t,
  )
  | inr down ↦ ground (arith, down, is_one_of-list_models_from hosts all t)
]

Distinct-list_models_from :
    (hosts : List HostEntry) (all : List Text)
    → Distinct all
    → Distinct (list_models_from hosts all)
unfolding list_models_from
Distinct-list_models_from [] all d = d
Distinct-list_models_from (h ∷ hosts) all d = elim (Bool-cases h.healthy) [
  | inl up ↦
      rw (up, list_models_from)
        (Distinct-list_models_from hosts (add_new h.models all) (Distinct-add_new h.models all d))
  | inr down ↦ rw (down, list_models_from) (Distinct-list_models_from hosts all d)
]

-- `list_models` has a model exactly if a healthy host offers it, and lists none twice.
pub list_models_lem :
    (m : MultiHost)
    → ((t : Text) → is_one_of (list_models m) t ≡ offered m.hosts t) × Distinct (list_models m)
unfolding list_models is_one_of
list_models_lem m = (is_one_of-list_models_from m.hosts [], Distinct-list_models_from m.hosts [] tt)
