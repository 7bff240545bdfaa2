-- ===== src/Tests/Registry.antt =====
-- src/provider/registry.cpp on a small registry.
use llama_cli.Base.Collect.{collect}
use llama_cli.Provider.Registry.{
  ModelEntry, cloud_entry, code, general, free_tier, has_capability, by_capability, fastest,
  fastest_from, providers, new_in, seen_in, read_catalog, catalog_step, catalog_entry,
  description_at, near, quoted_at,
}
use llama_cli.Provider.Fastest.{IsAnswer, fastest-IsAnswer}
use llama_cli.Base.{
  ℕ, ◌≡◌, refl, Bool, false, some, List, [], ◌∷◌, Text, codes, text_eq, starts_with, find,
  find_from,
}

abbrev model : Text → ℕ → ModelEntry
model name speed = record (cloud_entry name (codes "ollama") free_tier (general ∷ code ∷ [])) {
  tokens_per_sec = speed;
}

abbrev registry : List ModelEntry
registry = model (codes "a") 8 ∷ model (codes "b") 42 ∷ model (codes "c") 42 ∷ []

first_fast : fastest code registry ≡ some (model (codes "b") 42)
unfolding fastest fastest_from has_capability
first_fast = refl

fastest-IsAnswer_example : IsAnswer (by_capability code registry) (fastest code registry)
fastest-IsAnswer_example = fastest-IsAnswer code registry

one_provider : providers registry ≡ codes "ollama" ∷ []
unfolding providers new_in seen_in text_eq
one_provider = refl

abbrev catalog : Text
catalog = codes "[{\"model_name\":\"m\",\"description\":\"d\",\"rate_multiplier\":2.0}]"

abbrev read_two : Text → Bool
read_two rate = starts_with (codes "2") rate

reads_catalog :
    read_catalog (λ n t. false) (λ n t. false) read_two read_two (codes "kiro-cli") catalog
    ≡ some (
        catalog_entry (λ n t. false) (λ n t. false) read_two read_two (codes "kiro-cli") catalog 16
        ∷ [])
unfolding read_catalog collect catalog_step find_from find starts_with
reads_catalog = refl

described : description_at catalog 16 ≡ codes "d"
unfolding description_at near quoted_at find_from find starts_with
described = refl
