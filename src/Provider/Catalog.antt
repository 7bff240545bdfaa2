-- ===== src/Provider/Catalog.antt =====
-- The loop of src/provider/registry.cpp over the catalogs of models, and the scan.
use llama_cli.Base.Collect.{collect_total}
use llama_cli.Base.Search.{find_from_bounds}
use llama_cli.Base.Cases.{if-cases, option-cases}
use llama_cli.Provider.Registry.{
  ModelEntry, Machine, name_key, catalog_step, read_catalog, q_part, kiro_part, with_tool, mentions,
  scan_all_providers,
}
use llama_cli.Base.{
  ℕ, ◌+◌, ◌≤◌, ◌<◌, ◌≡◌, refl, inl, inr, Bool, Option, none, some, List, [], arith, Option-cases,
  ◌>>=◌, length, Text, codes, find_from,
}

-- A chain has a result if each of its links has one.
bound :
    {A B : Type 0} (o : Option A) (f : A → Option B)
    → (a : A) × (o ≡ some a)
    → ((a : A) → (b : B) × (f a ≡ some b))
    → (b : B) × ((o >>= f) ≡ some b)
bound (some x) f (a, e) h = h x
bound none f (a, e) h = absurd (cc)

module _ (size_at_most size_at_least : ℕ → Text → Bool) (is_expensive is_paid : Text → Bool) where
  catalog_step-Advances :
      (provider json : Text) (pos next : ℕ) (found : List ModelEntry)
      → catalog_step size_at_most size_at_least is_expensive is_paid provider json pos
        ≡ some (next, found)
      → (pos < next) × (next ≤ length json)
  unfolding catalog_step
  catalog_step-Advances provider json pos next found e =
      elim (Option-cases (find_from name_key json pos)) [
        | inl absent ↦ ground (arith, absent, e)
        | inr (at, there) ↦ elim (Option-cases (find_from (codes "\"") json (at + 14))) [
          | inl open_end ↦
              ground (arith, there, open_end, e, find_from_bounds name_key json pos at there)
          | inr (end, quote) ↦ ground (
            arith,
            there,
            quote,
            e,
            find_from_bounds name_key json pos at there,
            find_from_bounds (codes "\"") json (at + 14) end quote,
          )
        ]
      ]

  -- On every text the loop over a catalog ends.
  pub read_catalog_total :
      (provider json : Text)
      → (found : List ModelEntry) × (read_catalog size_at_most size_at_least is_expensive is_paid
            provider json
          ≡ some found)
  unfolding read_catalog
  read_catalog_total provider json =
      collect_total (catalog_step size_at_most size_at_least is_expensive is_paid provider json)
        (length json) (catalog_step-Advances provider json) (length json + 1) 0 (omega arith)
        (omega arith)

  module _ (machine : Machine) where
    open machine use {has_tool, q_catalog, kiro_catalog}

    with_tool_total :
        (tool : Text) (part : Option (List ModelEntry))
        → (found : List ModelEntry) × (part ≡ some found)
        → (found : List ModelEntry) × (with_tool size_at_most size_at_least is_expensive is_paid
              machine tool part
            ≡ some found)
    with_tool_total tool part (found, e) =
        if-cases (λ o. (found : List ModelEntry) × (o ≡ some found)) (has_tool tool)
          (λ there. (found, e)) (λ absent. ([], refl))

    q_part_total :
        (found : List ModelEntry) × (q_part size_at_most size_at_least is_expensive is_paid machine
          ≡ some found)
    unfolding q_part
    q_part_total =
        option-cases (λ o. (found : List ModelEntry) × (o ≡ some found)) q_catalog (_, refl)
          (λ output.
            if-cases (λ o. (found : List ModelEntry) × (o ≡ some found))
              (mentions (codes "model_name") output)
              (λ named. read_catalog_total (codes "amazon-q") output) (λ unnamed. (_, refl)))

    kiro_part_total :
        (found : List ModelEntry) × (kiro_part size_at_most size_at_least is_expensive is_paid
            machine
          ≡ some found)
    unfolding kiro_part
    kiro_part_total =
        option-cases (λ o. (found : List ModelEntry) × (o ≡ some found)) kiro_catalog (_, refl)
          (λ output. read_catalog_total (codes "kiro-cli") output)

    -- The scan for the models of all providers ends, whatever the machine answers.
    pub scan_all_providers_total :
        (sort : List ModelEntry → List ModelEntry) (hosts : List Text) (host port : Text)
        → (found : List ModelEntry) × (scan_all_providers size_at_most size_at_least is_expensive
              is_paid machine sort hosts host port
            ≡ some found)
    unfolding scan_all_providers
    scan_all_providers_total sort hosts host port =
        bound _ _ (with_tool_total (codes "tgpt") _ (_, refl)) (λ tgpt.
          bound _ _ (with_tool_total (codes "gemini") _ (_, refl)) (λ gemini.
            bound _ _ (with_tool_total (codes "q") _ q_part_total) (λ q.
              bound _ _ (with_tool_total (codes "kiro-cli-chat") _ kiro_part_total) (λ kiro.
                bound _ _ (with_tool_total (codes "sgpt") _ (_, refl)) (λ sgpt.
                  bound _ _ (with_tool_total (codes "opencode") _ (_, refl))
                    (λ opencode. (_, refl)))))))
