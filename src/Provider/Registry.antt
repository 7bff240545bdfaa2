-- ===== src/Provider/Registry.antt =====
-- src/provider/registry.cpp: the models of all providers. A size stays the text that `std::stod` reads, 0
-- where that throws, and so does a rate, 1 where that throws and 0 without a text; speeds are whole. Sizes and
-- rates are compared by functions that are arguments, and `sort` stands for `std::sort` by speed.
use llama_cli.Base.Collect.{collect}
use llama_cli.Base.Words.{getlines}
use llama_cli.Provider.Message.{ModelInfo}
use llama_cli.Base.{
  ℕ, ◌+◌, ◌-◌, Bool, true, false, ◌&&◌, ◌||◌, Option, none, some, List, [], ◌∷◌, ◌++◌, map, ltb,
  ◌==◌, if◌then◌else◌, ◌>>=◌, length, take, drop, Text, codes, is_empty, text_eq, char_at, substr,
  find, find_from,
}

pub data CostTier : Type 0 where
  free_tier : CostTier
  cheap_tier : CostTier
  expensive_tier : CostTier

pub data Capability : Type 0 where
  code : Capability
  vision : Capability
  general : Capability
  reasoning : Capability
  current_info : Capability

pub record ModelEntry : Type 0 where
  pub name : Text
  pub provider : Text
  pub host : Text
  pub description : Text
  pub tokens_per_sec : ℕ
  pub params_b : Text
  pub cost_rate : Option Text
  pub cost : CostTier
  pub capabilities : List Capability
  pub available : Bool

-- the number of a capability in the enum
abbrev pub rank : Capability → ℕ
rank code = 0
rank vision = 1
rank general = 2
rank reasoning = 3
rank current_info = 4

unfoldable pub has_capability : Capability → List Capability → Bool
has_capability cap [] = false
has_capability cap (c ∷ caps) = rank c == rank cap || has_capability cap caps

-- the two tests of the loops
abbrev pub offers : Capability → ModelEntry → Bool
offers cap m = m.available && has_capability cap m.capabilities

unfoldable pub by_capability : Capability → List ModelEntry → List ModelEntry
by_capability cap [] = []
by_capability cap (m ∷ models) =
    let rest = by_capability cap models in if offers cap m then m ∷ rest else rest

-- the better of the best so far and a model
abbrev pub faster : Option ModelEntry → ModelEntry → ModelEntry
faster none m = m
faster (some best) m = if ltb best.tokens_per_sec m.tokens_per_sec then m else best

unfoldable pub fastest_from : Capability → Option ModelEntry → List ModelEntry → Option ModelEntry
fastest_from cap best [] = best
fastest_from cap best (m ∷ models) =
    fastest_from cap (if offers cap m then some (faster best m) else best) models

unfoldable pub fastest : Capability → List ModelEntry → Option ModelEntry
fastest cap models = fastest_from cap none models

unfoldable pub by_name : Text → List ModelEntry → Option ModelEntry
by_name name [] = none
by_name name (m ∷ models) = if text_eq m.name name then some m else by_name name models

-- is the text in the set
unfoldable pub seen_in : Text → List Text → Bool
seen_in t [] = false
seen_in t (s ∷ seen) = text_eq s t || seen_in t seen

-- the set of texts that a loop inserts into, and what was new in it, in order
unfoldable pub new_in : List Text → List Text → List Text
new_in seen [] = []
new_in seen (t ∷ ts) =
    let known = seen_in t seen in
    let later = new_in (if known then seen else t ∷ seen) ts in if known then later else t ∷ later

unfoldable pub provider_count : List ModelEntry → ℕ
provider_count models = length (new_in [] (map (λ m. m.provider) models))

unfoldable pub host_count : List ModelEntry → ℕ
host_count models = length (new_in [] (map (λ m. m.host) models))

unfoldable pub providers : List ModelEntry → List Text
providers models = new_in [] (map (λ m. m.provider) models)

abbrev pub mentions : Text → Text → Bool
mentions word s = elim (find word s) [ none ↦ false | some at ↦ true ]

-- What the scan asks of the machine: the models of a server, whether a tool is on the path, the file with
-- the models of gemini, and the two catalogs, none for an exit code that is not 0.
pub record Machine : Type 0 where
  pub infos_at : Text → Text → List ModelInfo
  pub has_tool : Text → Bool
  pub gemini_models : Option Text
  pub q_catalog : Option Text
  pub kiro_catalog : Option Text

abbrev pub cloud_entry : Text → Text → CostTier → List Capability → ModelEntry
cloud_entry name provider cost capabilities = record {
  name = name;
  provider = provider;
  host = codes "cloud";
  description = [];
  tokens_per_sec = 0;
  params_b = [];
  cost_rate = none;
  cost = cost;
  capabilities = capabilities;
  available = true;
}

abbrev pub name_key : Text
name_key = codes "\"model_name\":\""

-- `json.substr(from, end - from)` up to the next quote, to the end without one
unfoldable pub quoted_at : Text → ℕ → Text
quoted_at json from = elim (find_from (codes "\"") json from) [
  | none ↦ drop from json
  | some end ↦ substr json from (end - from)
]

-- a key near the name: it starts less than 400 bytes behind
unfoldable pub near : Text → Text → ℕ → Option ℕ
near key json pos =
    find_from key json pos >>= λ at. if ltb at (pos + 400) then some (at + length key) else none

unfoldable pub description_at : Text → ℕ → Text
description_at json pos = elim (near (codes "\"description\":\"") json pos) [
  | none ↦ []
  | some from ↦ quoted_at json from
]

-- the text of the rate; an empty one reads as 1
unfoldable pub rate_at : Text → ℕ → Text
rate_at json pos = elim (near (codes "\"rate_multiplier\":") json pos) [
  | none ↦ []
  | some from ↦ substr json from 10
]

module _ (size_at_most size_at_least : ℕ → Text → Bool) (is_expensive is_paid : Text → Bool) where
  unfoldable pub infer_capabilities : Text → Text → List Capability
  infer_capabilities name params =
      general
      ∷ ((if mentions (codes "coder") name || mentions (codes "deepseek") name
            then code ∷ []
            else [])
          ++ ((if mentions (codes "llava") name || mentions (codes "gemma4") name
                then vision ∷ []
                else [])
              ++ (if size_at_least 20 params then reasoning ∷ [] else [])))

  -- The speeds that the code sets are all whole.
  unfoldable pub estimate_speed : Text → Text → ℕ
  estimate_speed params host =
      if mentions (codes "localhost") host
      then (if size_at_most 3 params then 20 else if size_at_most 7 params then 10 else 5)
      else if size_at_most 3 params
      then 85
      else if size_at_most 14 params
      then 42
      else if size_at_most 27 params
      then 8
      else 3

  unfoldable pub ollama_entries : Text → List ModelInfo → List ModelEntry
  ollama_entries hp [] = []
  ollama_entries hp (info ∷ infos) =
      let rest = ollama_entries hp infos in
      if mentions (codes "embed") info.name
      then rest
      else (record {
        name = info.name;
        provider = codes "ollama";
        host = hp;
        description = [];
        tokens_per_sec = estimate_speed info.params hp;
        params_b = info.params;
        cost_rate = none;
        cost = free_tier;
        capabilities = infer_capabilities info.name info.params;
        available = true;
      })
        ∷ rest

  unfoldable pub tier_of : Text → CostTier
  tier_of rate =
      if is_expensive rate then expensive_tier else if is_paid rate then cheap_tier else free_tier

  -- a model of a catalog, behind its key
  unfoldable pub catalog_entry : Text → Text → ℕ → ModelEntry
  catalog_entry provider json pos =
      record (cloud_entry (quoted_at json pos) provider (tier_of (rate_at json pos))
        (general ∷ code ∷ reasoning ∷ [])) {
          description = description_at json pos;
          cost_rate = some (rate_at json pos);
        }

  -- a round of the loop over a catalog: `pos = end`, which is behind the text without a quote
  unfoldable pub catalog_step : Text → Text → ℕ → Option (ℕ × List ModelEntry)
  catalog_step provider json pos = find_from name_key json pos >>= λ at.
      let end : ℕ = elim (find_from (codes "\"") json (at + 14)) [
        | none ↦ length json
        | some end ↦ end
      ] in
      some (end, catalog_entry provider json (at + 14) ∷ [])

  unfoldable pub read_catalog : Text → Text → Option (List ModelEntry)
  read_catalog provider json = collect (catalog_step provider json) (length json + 1) 0

  unfoldable pub gemini_entries : List Text → List ModelEntry
  gemini_entries [] = []
  gemini_entries (line ∷ lines) =
      let rest = gemini_entries lines in
      if is_empty line || char_at line 0 == b'#'
      then rest
      else cloud_entry line (codes "gemini") free_tier (general ∷ code ∷ reasoning ∷ []) ∷ rest

  module _ (machine : Machine) where
    open machine use {infos_at, has_tool, gemini_models, q_catalog, kiro_catalog}

    unfoldable pub host_models : Text → List ModelEntry
    host_models hp = ollama_entries hp (elim (find (codes ":") hp) [
      | none ↦ infos_at hp (codes "11434")
      | some colon ↦ infos_at (take colon hp) (drop (colon + 1) hp)
    ])

    unfoldable pub all_host_models : List Text → List ModelEntry
    all_host_models [] = []
    all_host_models (hp ∷ hosts) = host_models hp ++ all_host_models hosts

    unfoldable pub gemini_part : List ModelEntry
    gemini_part = elim gemini_models [
      | none ↦
          cloud_entry (codes "gemini-cli") (codes "gemini") free_tier
            (general ∷ code ∷ reasoning ∷ [])
          ∷ []
      | some file ↦ gemini_entries (getlines b'\n' file)
    ]

    unfoldable pub q_part : Option (List ModelEntry)
    q_part =
        let fallback = some (
          cloud_entry (codes "amazon-q") (codes "amazon-q") free_tier (general ∷ code ∷ []) ∷ []) in
        elim q_catalog [
          | none ↦ fallback
          | some output ↦
              if mentions (codes "model_name") output
              then read_catalog (codes "amazon-q") output
              else fallback
        ]

    unfoldable pub kiro_part : Option (List ModelEntry)
    kiro_part = elim kiro_catalog [
      | none ↦ some (
          cloud_entry (codes "kiro-auto") (codes "kiro-cli") expensive_tier
            (general ∷ code ∷ reasoning ∷ [])
          ∷ [])
      | some output ↦ read_catalog (codes "kiro-cli") output
    ]

    -- what a tool adds, if it is there
    abbrev pub with_tool : Text → Option (List ModelEntry) → Option (List ModelEntry)
    with_tool tool part = if has_tool tool then part else some []

    abbrev pub single_model : Text → CostTier → List Capability → Option (List ModelEntry)
    single_model tool cost capabilities =
        with_tool tool (some (cloud_entry (tool ++ codes "-default") tool cost capabilities ∷ []))

    unfoldable pub scan_all_providers :
        (List ModelEntry → List ModelEntry) → List Text → Text → Text → Option (List ModelEntry)
    scan_all_providers sort hosts host port = do
      tgpt ← single_model (codes "tgpt") free_tier (general ∷ current_info ∷ [])
      gemini ← with_tool (codes "gemini") (some gemini_part)
      q ← with_tool (codes "q") q_part
      kiro ← with_tool (codes "kiro-cli-chat") kiro_part
      sgpt ← single_model (codes "sgpt") cheap_tier (general ∷ code ∷ [])
      opencode ← single_model (codes "opencode") cheap_tier (general ∷ code ∷ [])
      some (
          sort (
            all_host_models (if is_empty hosts then (host ++ (codes ":" ++ port)) ∷ [] else hosts)
            ++ (tgpt ++ (gemini ++ (q ++ (kiro ++ (sgpt ++ opencode)))))))
